-- ===== src/Controller/Addresses/Splits.antt =====
-- The splitting of an address at each double slash, for getParsedAddress of
-- pkg/controllers/terraform_controller.go.
use Prim.Native.Char.{Char}
use text.Mathlib.TextLemmas.{nil-append, cons-append}
use text.Mathlib.TextEquality.{Char-path}
use terraform_operator.Prelude.{
  ℕ, String, Bool, true, false, code, nat_beq, ◌≡◌, refl, arith, List, [], ◌∷◌, ◌&&◌, not, inl, inr,
  Bool-cases, join, put_char, All,
}
use terraform_operator.Controller.Addresses.{split_double}

pub split_double_nonempty :
    (s : String) (k : ℕ)
    → (part : String) × (parts : List String) × (split_double s k ≡ part ∷ parts)
unfolding split_double put_char
split_double_nonempty String.[] k = ("", [], refl)
split_double_nonempty (String.◌∷◌ c String.[]) k = (String.◌∷◌ c String.[], [], refl)
split_double_nonempty (String.◌∷◌ c (String.◌∷◌ d s)) k =
    let (part, parts, e) = split_double_nonempty (String.◌∷◌ d s) k in
    elim (Bool-cases (nat_beq (code c) k && nat_beq (code d) k)) [
      | inl h ↦ ("", split_double s k, ground arith)
      | inr h ↦ (String.◌∷◌ c part, parts, ground arith)
    ]

join-put_char :
    (c : Char) (part : String) (parts : List String) (sep : String)
    → join (put_char c (part ∷ parts)) sep ≡ String.◌∷◌ c (join (part ∷ parts) sep)
unfolding join put_char
join-put_char c part [] sep = refl
join-put_char c part (next ∷ parts) sep = rw cons-append refl

join-empty :
    (part : String) (parts : List String) (c : Char)
    → join ("" ∷ part ∷ parts) (String.◌∷◌ c (String.◌∷◌ c String.[]))
      ≡ String.◌∷◌ c (String.◌∷◌ c (join (part ∷ parts) (String.◌∷◌ c (String.◌∷◌ c String.[]))))
unfolding join
join-empty part parts c = rw nil-append (rw cons-append (rw cons-append (rw nil-append refl)))

pub join-split_double :
    (s : String) (c : Char)
    → join (split_double s (code c)) (String.◌∷◌ c (String.◌∷◌ c String.[])) ≡ s
unfolding split_double
join-split_double String.[] c = unfold join in refl
join-split_double (String.◌∷◌ a String.[]) c = unfold join in refl
join-split_double (String.◌∷◌ a (String.◌∷◌ b s)) c =
    let (part, parts, e) = split_double_nonempty s (code c) in
    let (part', parts', e') = split_double_nonempty (String.◌∷◌ b s) (code c) in
    elim (Bool-cases (nat_beq (code a) (code c) && nat_beq (code b) (code c))) [
      | inl h ↦ ground (
        arith,
        join-split_double s c,
        e,
        join-empty part parts c,
        λ (p : code a ≡ code c). Char-path a c p,
        λ (p : code b ≡ code c). Char-path b c p,
      )
      | inr h ↦ ground (
        arith,
        join-split_double (String.◌∷◌ b s) c,
        e',
        join-put_char a part' parts' (String.◌∷◌ c (String.◌∷◌ c String.[])),
      )
    ]

-- Whether the text contains the character of the code nowhere twice in a row.
abbrev pub is_single : ℕ → String → Bool
is_single k String.[] = true
is_single k (String.◌∷◌ c String.[]) = true
is_single k (String.◌∷◌ c (String.◌∷◌ d s)) =
    not (nat_beq (code c) k && nat_beq (code d) k) && is_single k (String.◌∷◌ d s)

abbrev pub IsSingle : ℕ → String → Type 0
IsSingle k s = is_single k s ≡ true

-- A part that is not empty starts with the character that the text starts with.
abbrev starts : String → String → Bool
starts s String.[] = true
starts String.[] (String.◌∷◌ d part) = false
starts (String.◌∷◌ c s) (String.◌∷◌ d part) = nat_beq (code c) (code d)

IsSingle-cons :
    (k : ℕ) (c d : Char) (s part : String)
    → (nat_beq (code c) k && nat_beq (code d) k) ≡ false
    → starts (String.◌∷◌ d s) part ≡ true
    → IsSingle k part
    → IsSingle k (String.◌∷◌ c part)
IsSingle-cons k c d s String.[] h b p = refl
IsSingle-cons k c d s (String.◌∷◌ e part) h b p = ground arith

-- No part of a split contains the separator.
split_double-parts :
    (s : String) (k : ℕ)
    → (part : String) × (parts : List String) × (split_double s k ≡ part ∷ parts)
      × (starts s part ≡ true)
      × All (IsSingle k) (part ∷ parts)
unfolding split_double put_char
split_double-parts String.[] k = ("", [], refl, refl, (refl, tt))
split_double-parts (String.◌∷◌ c String.[]) k =
    (String.◌∷◌ c String.[], [], refl, ground arith, (refl, tt))
split_double-parts (String.◌∷◌ c (String.◌∷◌ d s)) k =
    let (apart, more, e, _, h) = split_double-parts s k in
    let (part, parts, e', b, h') = split_double-parts (String.◌∷◌ d s) k in
    elim (Bool-cases (nat_beq (code c) k && nat_beq (code d) k)) [
      | inl t ↦ ("", apart ∷ more, ground arith, refl, (refl, h))
      | inr f ↦ (
        String.◌∷◌ c part,
        parts,
        ground arith,
        ground arith,
        (IsSingle-cons k c d s part f b h'.0, h'.1),
      )
    ]

pub split_double-IsSingle : (s : String) (k : ℕ) → All (IsSingle k) (split_double s k)
split_double-IsSingle s k = let (part, parts, e, _, h) = split_double-parts s k in rw e h
