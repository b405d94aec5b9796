-- ===== src/Controller/Addresses/Schemes.antt =====
-- What getParsedAddress of pkg/controllers/terraform_controller.go makes of an address.

use mathlib.Core.Bool.{false≢true}
use terraform_operator.Prelude.{
  All, subst, text_cases, ◌⊎◌, String, Bool, false, ◌==◌, if◌then◌else◌, ◌≡◌, ◌≢◌, refl, ap, ◌∙◌,
  sym, arith, List, [], ◌∷◌, is_empty, inl, inr, eq_iff, join,
}
use terraform_operator.Api.Spec.{StringMap}
use terraform_operator.Cluster.Effects.{Result, ok, err, panic}
use terraform_operator.Controller.Options.{ParsedAddress}
use terraform_operator.Controller.Addresses.{
  and_then, NetUrl, Getter, Url, detect, get_forced_getter, split_double, files_of, scheme_of,
  get_parsed_address, address_from, Values, get_value,
}
use terraform_operator.Controller.Addresses.Splits.{
  split_double_nonempty, join-split_double, IsSingle, split_double-IsSingle,
}
use terraform_operator.Controller.Addresses.Patterns.{IsForced, get_forced_getter_iff}

two_parts :
    (s part next : String) (parts : List String)
    → split_double s b'/' ≡ part ∷ next ∷ parts
    → s ≢ ""
unfolding split_double
two_parts s part next parts e p =
    let q : split_double "" b'/' ≡ part ∷ next ∷ parts =
      ap (λ t. split_double t b'/') (sym p) ∙ e in
    absurd (ground arith)

files_from :
    (s part : String) (parts : List String)
    → split_double s b'/' ≡ part ∷ parts
    → join (split_double s b'/') "//" ≡ s
    → join (files_of s) "//" ≡ (if s == "" then "." else s)
unfolding files_of join
files_from s part [] e j = ground (arith, eq_iff part "", eq_iff s "")
files_from s part (next ∷ parts) e j =
    ground (arith, eq_iff s "", λ (p : s ≡ ""). two_parts s part next parts e p)

files_cases :
    (s : String) (parts : List String)
    → split_double s b'/' ≡ parts
    → (files_of s ≡ parts) ⊎ (files_of s ≡ "." ∷ [])
unfolding files_of
files_cases s [] e = inl (ground arith)
files_cases s (part ∷ []) e = elim (text_cases part "") [
  | inl (p, b) ↦ inr (ground arith)
  | inr (n, b) ↦ inl (ground arith)
]
files_cases s (part ∷ next ∷ parts) e = inl (ground arith)

files_of-IsSingle : (s : String) → All (IsSingle b'/') (files_of s)
files_of-IsSingle s = elim (files_cases s (split_double s b'/') refl) [
  | inl e ↦ subst (All (IsSingle b'/')) (sym e) (split_double-IsSingle s b'/')
  | inr e ↦ subst (All (IsSingle b'/')) (sym e) (refl, tt)
]

files_join : (s : String) → join (files_of s) "//" ≡ (if s == "" then "." else s)
files_join s =
    let (part, parts, e) = split_double_nonempty s b'/' in
    files_from s part parts e (join-split_double s "/")

ok_inj : {A : Type 0} {a b : A} → ◌≡◌ {A = Result A} (ok a) (ok b) → a ≡ b
ok_inj e = cc

and_then-eq-ok :
    {A B : Type 0} (r : Result A) (f : A → Result B) {b : B}
    → and_then r f ≡ ok b
    → (a : A) × (r ≡ ok a) × (f a ≡ ok b)
and_then-eq-ok (ok a) f h = (a, refl, h)
and_then-eq-ok (err e) f h = absurd (ground arith)
and_then-eq-ok panic f h = absurd (ground arith)

scheme_of-forced :
    (forced : String) (scm_map : StringMap) (url : Url)
    → is_empty forced ≡ false
    → scheme_of forced scm_map url ≡ forced
unfolding scheme_of
scheme_of-forced forced scm_map url n =
    ground (arith, eq_iff forced "", λ (p : forced ≡ ""). false≢true (sym n ∙ ap is_empty p))

module _ (net : NetUrl) (getter : Getter) (address path : String) (use_as_var : Bool)
    (scm_map : StringMap) (parsed : ParsedAddress)
    (success : get_parsed_address net getter address path use_as_var scm_map ≡ ok parsed) where
  -- What the parts of the address come from.
  parsed_inv :
      (output : String)
      → getter.detect (detect net) address "moduleDir" ≡ ok output
      → (url : Url) × (query : Values) × (net.parse
            (getter.source_dir_subdir (get_forced_getter output).1).0
          ≡ ok url)
        × (net.parse_query url.raw_query ≡ ok query)
        × (let (forced, result) = get_forced_getter output in
            address_from net path use_as_var scm_map forced
              (getter.source_dir_subdir result).1
              url
              query
            ≡ parsed)
  unfolding get_parsed_address
  parsed_inv output d =
      let result = (get_forced_getter output).1 in
      let start = rw d at success in
      let (url, at, e) = and_then-eq-ok (net.parse (getter.source_dir_subdir result).0) _ start in
      let (query, asked, e') = and_then-eq-ok (net.parse_query url.raw_query) _ e in
      (url, query, at, asked, ok_inj e')

  -- In an address that is parsed, a getter that the address forces decides the scheme, whatever the
  -- host is and whatever the resource configures for it. The reference is the `ref` of the query of
  -- the URL behind the getter, and `master` if the query has none, or an empty one.
  pub get_parsed_address-forced :
      (scheme rest output : String)
      → getter.detect (detect net) address "moduleDir" ≡ ok output
      → IsForced output scheme rest
      → (url : Url) × (query : Values) × (parsed.detected_scheme ≡ scheme)
        × (net.parse (getter.source_dir_subdir rest).0 ≡ ok url)
        × (net.parse_query url.raw_query ≡ ok query)
        × (((get_value query "ref" ≡ "") × (parsed.hash ≡ "master"))
            ⊎ ((get_value query "ref" ≢ "") × (parsed.hash ≡ get_value query "ref")))
  unfolding address_from
  get_parsed_address-forced scheme rest output d f =
      let (url, query, at, asked, e) = parsed_inv output d in
      let forced = (get_forced_getter_iff output scheme rest f.named).1 f in
      let hash = get_value query "ref" in
      let set : parsed.hash ≡ (if hash == "" then "master" else hash) =
        ap (λ (p : ParsedAddress). p.hash) (sym e) in
      (
        url,
        query,
        ap (λ (p : ParsedAddress). p.detected_scheme) (sym e)
            ∙ scheme_of-forced (get_forced_getter output).0 scm_map url
                (ap (λ (p : String × String). is_empty p.0) forced ∙ f.named)
            ∙ ap (λ p. p.0) forced,
        ap (λ (p : String × String). net.parse (getter.source_dir_subdir p.1).0) (sym forced) ∙ at,
        asked,
        elim (text_cases hash "") [
          | inl (h, b) ↦ inl (h, set ∙ rw b refl)
          | inr (n, b) ↦ inr (n, set ∙ rw b refl)
        ],
      )

  -- The directories of an address that is parsed are what go-getter left of it, split at each `//`:
  -- joined by `//` they are that text again, and none of them contains `//`. Without any, the
  -- directory is `.`.
  pub get_parsed_address-files :
      (output : String)
      → getter.detect (detect net) address "moduleDir" ≡ ok output
      → let rest = (getter.source_dir_subdir (get_forced_getter output).1).1 in
        (join parsed.files "//" ≡ (if rest == "" then "." else rest))
        × All (IsSingle b'/') parsed.files
  unfolding address_from
  get_parsed_address-files output d =
      let (url, query, at, asked, e) = parsed_inv output d in
      let rest = (getter.source_dir_subdir (get_forced_getter output).1).1 in
      (
        ap (λ (p : ParsedAddress). join p.files "//") (sym e) ∙ files_join rest,
        subst (λ (p : ParsedAddress). All (IsSingle b'/') p.files) e (files_of-IsSingle rest),
      )
