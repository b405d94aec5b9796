-- ===== src/Prelude/Splitting.antt =====
-- Splitting a text at a character, and joining the parts again.
use Prim.Native.String
use Prim.Native.String.{String}
use Prim.Native.Char.{Char}
use text.Mathlib.TextLemmas.{nil-append, cons-append}
use text.Mathlib.TextEquality.{Char-path}
use terraform_operator.Prelude.{
  suc, ap, ◌-◌, length, take, join, ℕ, Bool, true, List, [], ◌∷◌, ◌++◌, ◌≡◌, refl, arith, not, ◌&&◌,
  inl, inr, code, nat_beq, put_char, split, Bool-cases,
}

-- No character of the text has the code.
abbrev pub is_free : ℕ → String → Bool
is_free k String.[] = true
is_free k (String.◌∷◌ c s) = not (nat_beq (code c) k) && is_free k s

pub split_nonempty :
    (s : String) (k : ℕ) → (part : String) × (parts : List String) × (split s k ≡ part ∷ parts)
unfolding split put_char
split_nonempty String.[] k = ("", [], refl)
split_nonempty (String.◌∷◌ c s) k =
    let (part, parts, e) = split_nonempty s k in
    elim (Bool-cases (nat_beq (code c) k)) [
      | inl h ↦ ("", split s k, ground arith)
      | inr h ↦ (String.◌∷◌ c part, parts, ground arith)
    ]

pub split-free : (s : String) (k : ℕ) → is_free k s ≡ true → split s k ≡ s ∷ []
unfolding split put_char
split-free String.[] k h = refl
split-free (String.◌∷◌ c s) k h = ground (arith, split-free s k)

-- A text is split at each separator alone.
pub split-append :
    (s t : String) (c : Char) (k : ℕ)
    → nat_beq (code c) k ≡ true
    → split (String.◌++◌ s (String.◌∷◌ c t)) k ≡ split s k ++ split t k
unfolding split put_char
split-append String.[] t c k h = rw nil-append (ground arith)
split-append (String.◌∷◌ d s) t c k h =
    let (part, parts, e) = split_nonempty s k in
    let ih = split-append s t c k h in
    elim (Bool-cases (nat_beq (code d) k)) [
      | inl g ↦ rw cons-append (ground (arith, ih))
      | inr g ↦ rw cons-append (ground (arith, ih, e))
    ]

join-put_char :
    (c : Char) (part : String) (parts : List String) (sep : String)
    → join (String.◌∷◌ c part ∷ parts) sep ≡ String.◌∷◌ c (join (part ∷ parts) sep)
unfolding join
join-put_char c part [] sep = refl
join-put_char c part (next ∷ parts) sep = rw cons-append

join-empty :
    (part : String) (parts : List String) (c : Char)
    → join ("" ∷ part ∷ parts) (String.◌∷◌ c String.[])
      ≡ String.◌∷◌ c (join (part ∷ parts) (String.◌∷◌ c String.[]))
unfolding join
join-empty part parts c = rw nil-append (rw cons-append (rw nil-append))

-- Joining what a text was split into at a character gives the text again.
pub join-split :
    (s : String) (sep : Char) → join (split s (code sep)) (String.◌∷◌ sep String.[]) ≡ s
unfolding split put_char
join-split String.[] sep = unfold join in refl
join-split (String.◌∷◌ c s) sep =
    let (part, parts, e) = split_nonempty s (code sep) in
    let ih = join-split s sep in
    elim (Bool-cases (nat_beq (code c) (code sep))) [
      | inl g ↦
          ground
            (arith, ih, e, join-empty part parts sep, λ (p : code c ≡ code sep). Char-path c sep p)
      | inr g ↦ ground (arith, ih, e, join-put_char c part parts (String.◌∷◌ sep String.[]))
    ]

pub take-drop_last {ℓ} :
    {A : Type ℓ} (l : List A) (x : A) → take (length (l ++ x ∷ []) - 1) (l ++ x ∷ []) ≡ l
take-drop_last [] x = refl
take-drop_last (y ∷ []) x = refl
take-drop_last (y ∷ z ∷ l) x =
    let n : ℕ = length (l ++ x ∷ []) in
    let outer : suc (suc n) - 1 ≡ suc n = omega arith in
    let inner : suc n - 1 ≡ n = omega arith in
    rw outer (ap (λ r. y ∷ r) (rw inner at (take-drop_last (z ∷ l) x)))
