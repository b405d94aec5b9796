-- ===== src/Utils/Random.antt =====
-- Random texts of pkg/utils/utils.go, and how long they are. The generator of math/rand is a
-- parameter.

use terraform_operator.Prelude.{
  ℕ, zero, suc, ◌<◌, String, Char, code, Bool, true, false, ◌≡◌, refl, ap, Option, none, some,
  arith, nat_beq, ◌||◌, ◌&&◌, text_length,
}

abbrev pub charset : String
charset = "abcdefghijklmnopqrstuvwxyzABCDEFGHIJKLMNOPQRSTUVWXYZ0123456789"

abbrev pub alpha_num : String
alpha_num = "abcdefghijklmnopqrstuvwxyz0123456789"

-- `rand.Rand` in a world: `Intn(n)` is a number below `n`. For `n` zero it panics.
pub record Rand : Type 1 where
  pub World : Type 0
  pub intn : (n : ℕ) → World → ℕ × World
  pub below : (n : ℕ) (w : World) → 0 < n → (intn n w).0 < n

-- `s[i]`, which panics out of range.
unfoldable pub char_at : ℕ → String → Option Char
char_at i String.[] = none
char_at zero (String.◌∷◌ c s) = some c
char_at (suc i) (String.◌∷◌ c s) = char_at i s

abbrev pub has_char : String → Char → Bool
has_char String.[] c = false
has_char (String.◌∷◌ d s) c = nat_beq (code d) (code c) || has_char s c

abbrev pub all_of : String → String → Bool
all_of chars String.[] = true
all_of chars (String.◌∷◌ c s) = has_char chars c && all_of chars s

module _ (r : Rand) where
  open r use {World}

  put : Option Char → Option String × World → Option String × World
  put none (o, w) = (none, w)
  put (some c) (none, w) = (none, w)
  put (some c) (some s, w) = (some (String.◌∷◌ c s), w)

  -- The loop over the bytes; `none` is the panic of an empty set of characters.
  unfoldable pub string_with_charset :
      (length : ℕ) → (chars : String) → World → Option String × World
  unfolding char_at put
  string_with_charset zero chars w = (some "", w)
  string_with_charset (suc length) chars w =
      let (i, w') = r.intn (text_length chars) w in
      put (char_at i chars) (string_with_charset length chars w')

  unfoldable pub random_string : ℕ → World → Option String × World
  unfolding string_with_charset
  random_string length w = string_with_charset length charset w

char_at-below :
    (i : ℕ) (s : String)
    → i < text_length s
    → (c : Char) × (char_at i s ≡ some c) × (has_char s c ≡ true)
unfolding char_at text_length
char_at-below i String.[] h = absurd (omega arith)
char_at-below zero (String.◌∷◌ c s) h = (c, refl, ground arith)
char_at-below (suc i) (String.◌∷◌ d s) h =
    let (c, e, m) = char_at-below i s (omega arith) in (c, e, ground (arith, m))

-- What a draw of a text comes to.
pub record Drawn (length : ℕ) (chars s : String) : Type 0 where
  pub sized : text_length s ≡ length
  pub chosen : all_of chars s ≡ true

-- With characters to choose from, a random text is drawn without a panic, has the length that is
-- asked for, and all its characters are of the set.
pub string_with_charset-Drawn :
    (r : Rand) (length : ℕ) (chars : String) (w : r.World)
    → 0 < text_length chars
    → (s : String) × (w' : r.World) × (string_with_charset r length chars w ≡ (some s, w'))
      × Drawn length chars s
unfolding string_with_charset put text_length
string_with_charset-Drawn r zero chars w h = ("", w, refl, record { sized = refl; chosen = refl })
string_with_charset-Drawn r (suc length) chars w h =
    let (c, e, m) =
      char_at-below (r.intn (text_length chars) w).0 chars (r.below (text_length chars) w h) in
    let (s, w', drawn, d) =
      string_with_charset-Drawn r length chars (r.intn (text_length chars) w).1 h in
    (
      String.◌∷◌ c s,
      w',
      rw (e, drawn) refl,
      record { sized = ap suc d.sized; chosen = ground (arith, m, d.chosen) },
    )
