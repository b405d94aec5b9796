-- ===== src/Controller/Addresses/Patterns.antt =====
-- The two regular expressions of pkg/controllers/terraform_controller.go for addresses.
use Prim.Native.String
use Prim.Native.Char.{Char}
use text.Mathlib.TextLemmas.{nil-append, cons-append}
use mathlib.Core.Bool.{false≢true}
use text.Mathlib.TextEquality.{Char-path}
use terraform_operator.Prelude.{
  ℕ, String, true, false, code, nat_beq, ◌≡◌, ◌↔◌, refl, ap, ap₂, ◌∙◌, sym, arith, none, some, ◌&&◌,
  not, is_empty, inl, inr, Bool-cases, Option-cases,
}
use terraform_operator.Controller.Addresses.{
  Option, get_forced_getter, break_on, all_alnum, has_no, is_line, forced_after, forced_from,
  or_whole, find_forced,
}

pub break_on-append :
    (k : ℕ) (s : String) (c : Char) (t : String)
    → has_no k s ≡ true
    → nat_beq (code c) k ≡ true
    → break_on k (String.◌++◌ s (String.◌∷◌ c t)) ≡ some (s, t)
unfolding break_on
break_on-append k String.[] c t h e = rw nil-append (ground arith)
break_on-append k (String.◌∷◌ d s) c t h e =
    rw cons-append (ground (arith, break_on-append k s c t))

-- How a text is broken.
pub record Broken (k : ℕ) (s before after : String) : Type 0 where
  pub separator : Char
  pub code_eq : nat_beq (code separator) k ≡ true
  pub free : has_no k before ≡ true
  pub whole : s ≡ String.◌++◌ before (String.◌∷◌ separator after)

pub break_on-Broken :
    (k : ℕ) (s : String) {before after : String}
    → break_on k s ≡ some (before, after)
    → Broken k s before after
unfolding break_on
break_on-Broken k String.[] e = absurd (ground arith)
break_on-Broken k (String.◌∷◌ c s) {before} {after} e = elim (Bool-cases (nat_beq (code c) k)) [
  | inl h ↦
      let p : ("" ≡ before) × (s ≡ after) = ground arith in
      record {
        separator = c;
        code_eq = h;
        free = rw (← p.0) refl;
        whole = rw (← p.0, ← p.1) (sym (nil-append (String.◌∷◌ c s)));
      }
  | inr h ↦ elim (Option-cases (break_on k s)) [
    | inl none_here ↦ absurd (ground arith)
    | inr ((b, a), here) ↦
        let p : (String.◌∷◌ c b ≡ before) × (a ≡ after) = ground arith in
        let ih = break_on-Broken k s here in
        record {
          separator = ih.separator;
          code_eq = ih.code_eq;
          free = rw (← p.0) (ground (arith, ih.free));
          whole =
              rw (← p.0, ← p.1)
                (ap (λ t. String.◌∷◌ c t) ih.whole
                  ∙ sym (cons-append c b (String.◌∷◌ ih.separator a)));
        }
  ]
]

-- A forced getter before an address: a scheme of letters and digits, two colons, and a text of one
-- line.
pub record IsForced (src scheme address : String) : Type 0 where
  pub named : is_empty scheme ≡ false
  pub alnum : all_alnum scheme ≡ true
  pub line : is_line address ≡ true
  pub whole : src ≡ String.◌++◌ scheme (String.◌++◌ "::" address)

all_alnum-has_no : (s : String) → all_alnum s ≡ true → has_no b':' s ≡ true
all_alnum-has_no String.[] h = refl
all_alnum-has_no (String.◌∷◌ c s) h = ground (arith, all_alnum-has_no s)

forced_after-cons :
    (scheme address : String)
    → is_empty scheme ≡ false
    → all_alnum scheme ≡ true
    → is_line address ≡ true
    → forced_after scheme (String.◌∷◌ ":" address) ≡ some (scheme, address)
forced_after-cons scheme address n a l = ground arith

colon : (c : Char) → nat_beq (code c) b':' ≡ true → c ≡ ":"
colon c h = Char-path c ":" (ground arith)

colons-append : (s : String) → String.◌++◌ "::" s ≡ String.◌∷◌ ":" (String.◌∷◌ ":" s)
colons-append s =
    cons-append ":" ":" s
    ∙ ap (λ t. String.◌∷◌ ":" t) (cons-append ":" "" s ∙ ap (λ t. String.◌∷◌ ":" t) (nil-append s))

forced_after-inv :
    (scheme rest : String) {found : String × String}
    → forced_after scheme rest ≡ some found
    → (found.0 ≡ scheme)
      × (rest ≡ String.◌∷◌ ":" found.1)
      × (is_empty scheme ≡ false)
      × (all_alnum scheme ≡ true)
      × (is_line found.1 ≡ true)
forced_after-inv scheme String.[] e = absurd (ground arith)
forced_after-inv scheme (String.◌∷◌ c rest) {found} e =
    elim (Bool-cases
      (nat_beq (code c) b':' && not (is_empty scheme) && all_alnum scheme && is_line rest)) [
        | inl h ↦
            let p : (scheme ≡ found.0) × (rest ≡ found.1) = ground arith in
            let q : code c ≡ b':' = ground arith in
            let d = Char-path c ":" q in
            (sym p.0, rw (d, p.1) refl, ground arith, ground arith, rw (← p.1) (ground arith))
        | inr h ↦ absurd (ground arith)
      ]

or_whole-inv :
    (src : String) (found : Option (String × String)) {scheme address : String}
    → or_whole src found ≡ (scheme, address)
    → is_empty scheme ≡ false
    → found ≡ some (scheme, address)
or_whole-inv src none {scheme} e n =
    let p : "" ≡ scheme = ap (λ x. x.0) e in absurd (false≢true (sym n ∙ ap is_empty (sym p)))
or_whole-inv src (some found) e n = ap some e

module _ (src scheme address : String) where
  IsForced-find_forced : IsForced src scheme address → find_forced src ≡ some (scheme, address)
  unfolding find_forced
  IsForced-find_forced f =
      ap (λ s. forced_from (break_on b':' s))
        (f.whole ∙ ap (λ t. String.◌++◌ scheme t) (colons-append address))
      ∙ ap forced_from (
          break_on-append b':' scheme ":" (String.◌∷◌ ":" address) (all_alnum-has_no scheme f.alnum)
            refl)
      ∙ forced_after-cons scheme address f.named f.alnum f.line

  find_forced-IsForced : find_forced src ≡ some (scheme, address) → IsForced src scheme address
  unfolding find_forced
  find_forced-IsForced e = elim (Option-cases (break_on b':' src)) [
    | inl h ↦ absurd (ground arith)
    | inr ((before, after), h) ↦
        let (same, rest, named, alnum, line) =
          forced_after-inv before after (sym (ap forced_from h) ∙ e) in
        let broken = break_on-Broken b':' src h in
        record {
          named = rw same named;
          alnum = rw same alnum;
          line = line;
          whole =
              broken.whole
              ∙ ap (λ t. String.◌++◌ before t)
                  (ap₂ String.◌∷◌ (colon broken.separator broken.code_eq) rest
                    ∙ sym (colons-append address))
              ∙ ap (λ t. String.◌++◌ t (String.◌++◌ "::" address)) (sym same);
        }
  ]

  -- `getForcedGetter` takes a getter off an address exactly as its expression
  -- `^([A-Za-z0-9]+)::(.+)$` says: with `scheme` not empty, it answers `scheme` and `address` if
  -- and only if the text is `scheme::address`, with a scheme of letters and digits and an address
  -- of one line that is not empty. So the parts of a text that is put together are found again, and
  -- the parts that are found make the text.
  pub get_forced_getter_iff :
      is_empty scheme ≡ false
      → (get_forced_getter src ≡ (scheme, address)) ↔ IsForced src scheme address
  unfolding get_forced_getter
  get_forced_getter_iff named = (
    λ e. find_forced-IsForced (or_whole-inv src (find_forced src) e named),
    λ f. ap (or_whole src) (IsForced-find_forced f),
  )
