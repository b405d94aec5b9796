-- ===== src/Utils/Names.antt =====
-- The resource names of utils.go: truncation and the label that stands for a long name.
use Prim.Native.String
use text.Mathlib.TextLemmas.{nil-append, cons-append}
use terraform_operator.Prelude.{
  ℕ, zero, suc, ◌≤◌, ◌<◌, String, Char, code, false, ◌≡◌, ◌≢◌, refl, ap, some, arith, inl, inr,
  if◌then◌else◌, nat_beq, text_length, text_take, trim_right, last_code, is_empty, Bool-cases, ◌&&◌,
}
use terraform_operator.Utils.{truncate_resource_name, auto_hash_labeler}

text_length-trim_right : (s : String) (k : ℕ) → text_length (trim_right s k) ≤ text_length s
unfolding text_length trim_right
text_length-trim_right String.[] k = omega arith
text_length-trim_right (String.◌∷◌ c s) k = ground (arith, text_length-trim_right s k)

text_length-text_take : (i : ℕ) (s : String) → text_length (text_take i s) ≤ i
unfolding text_length text_take
text_length-text_take zero s = omega arith
text_length-text_take (suc i) String.[] = omega arith
text_length-text_take (suc i) (String.◌∷◌ c s) = omega (arith, text_length-text_take i s)

-- A truncated name has at most `i` characters.
pub truncate_resource_name-length :
    (s : String) (i : ℕ) → text_length (truncate_resource_name s i) ≤ i
unfolding truncate_resource_name
truncate_resource_name-length s i =
    let name : String = trim_right (text_take i s) b'-' in
    ground (
      arith,
      text_length-trim_right name b'.',
      text_length-trim_right (text_take i s) b'-',
      text_length-text_take i s,
    )

some-ne-some : (a b : ℕ) → nat_beq a b ≡ false → some a ≢ some b
some-ne-some a b e q = ground arith

last_code-cons :
    (c : Char) (r : String) (k : ℕ)
    → last_code r ≢ some k
    → last_code (if is_empty r && nat_beq (code c) k then "" else String.◌∷◌ c r) ≢ some k
unfolding last_code
last_code-cons c String.[] k h = elim (Bool-cases (nat_beq (code c) k)) [
  | inl e ↦ rw e (λ q. cc)
  | inr e ↦ rw e (λ q. absurd (some-ne-some (code c) k e q))
]
last_code-cons c (String.◌∷◌ d r) k h = ground arith

last_code-trim_right : (s : String) (k : ℕ) → last_code (trim_right s k) ≢ some k
unfolding last_code trim_right
last_code-trim_right String.[] k = cc
last_code-trim_right (String.◌∷◌ c s) k =
    last_code-cons c (trim_right s k) k (last_code-trim_right s k)

-- A name that was cut does not end in a dot.
pub truncate_resource_name-last :
    (s : String) (i : ℕ) → i < text_length s → last_code (truncate_resource_name s i) ≢ some b'.'
unfolding truncate_resource_name
truncate_resource_name-last s i h =
    ground (arith, last_code-trim_right (trim_right (text_take i s) b'-') b'.')

-- The label of a name has at most 63 characters, if the hash is as long as a hex MD5 sum.
pub auto_hash_labeler-length :
    (md5 : String → String)
    → ((s : String) → text_length (md5 s) ≡ 32)
    → (s : String) → text_length (auto_hash_labeler md5 s) ≤ 63
unfolding auto_hash_labeler
auto_hash_labeler-length md5 h s = ground (arith, h s)

-- A text that ends in a dash and a dot is no shorter for the dashes, and loses the dot alone.
is_empty-append :
    (p : String) (c : Char) (q : String) → is_empty (String.◌++◌ p (String.◌∷◌ c q)) ≡ false
is_empty-append String.[] c q = rw nil-append
is_empty-append (String.◌∷◌ d p) c q = rw cons-append

trim_right-cons :
    (d : Char) (r t : String) (k : ℕ)
    → trim_right r k ≡ t
    → is_empty t ≡ false
    → trim_right (String.◌∷◌ d r) k ≡ String.◌∷◌ d t
unfolding trim_right
trim_right-cons d r t k e n = rw (e, n)

trim_right-dash : (p : String) → trim_right (String.◌++◌ p "-.") b'-' ≡ String.◌++◌ p "-."
unfolding trim_right
trim_right-dash String.[] = refl
trim_right-dash (String.◌∷◌ d p) = rw cons-append (
    trim_right-cons d (String.◌++◌ p "-.") (String.◌++◌ p "-.") b'-' (trim_right-dash p)
      (is_empty-append p "-" "."))

trim_right-dot : (p : String) → trim_right (String.◌++◌ p "-.") b'.' ≡ String.◌++◌ p "-"
unfolding trim_right
trim_right-dot String.[] = refl
trim_right-dot (String.◌∷◌ d p) =
    rw (cons-append, cons-append)
      (trim_right-cons d (String.◌++◌ p "-.") (String.◌++◌ p "-") b'.' (trim_right-dot p)
        (is_empty-append p "-" ""))

-- A name that is cut behind a dash and a dot loses the dot alone, and so ends in the dash.
pub truncate_resource_name-dash :
    (s p : String) (i : ℕ)
    → i < text_length s
    → text_take i s ≡ String.◌++◌ p "-."
    → truncate_resource_name s i ≡ String.◌++◌ p "-"
unfolding truncate_resource_name
truncate_resource_name-dash s p i h e = ground (
  arith,
  ap (λ t. trim_right (trim_right t b'-') b'.') e,
  ap (λ t. trim_right t b'.') (trim_right-dash p),
  trim_right-dot p,
)
