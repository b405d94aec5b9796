-- ===== src/Manager/Environ.antt =====
-- What the tasks get of the environment of cmd/manager/main.go.
use Prim.Native.String
use text.Mathlib.TextLemmas.{nil-append, cons-append, append_cancel_left}
use text.Mathlib.TextEquality.{Char-path}
use terraform_operator.Prelude.{
  Option-cases, String, code, Bool, true, List, [], ◌∷◌, ◌≡◌, refl, sym, ap, ap₂, ◌∙◌, arith, ◌==◌,
  if◌then◌else◌, Option, none, some, nat_beq, lookup, lookup-insert, map, inl, inr, text_cases,
  eq_refl,
}
use terraform_operator.Utils.{list_contains_str}
use terraform_operator.Api.Spec.{StringMap}
use terraform_operator.Controller.Run.{GlobalEnv}
use terraform_operator.Manager.{
  key_of, get_env, strip_prefix, add_named, read_entries, global_env_of,
}

strip_prefix-append : (p s : String) → strip_prefix p (String.◌++◌ p s) ≡ some s
unfolding strip_prefix
strip_prefix-append String.[] s = ap some (nil-append s)
strip_prefix-append (String.◌∷◌ c p) s =
    rw (cons-append c p s) (ground (arith, strip_prefix-append p s))

if_some :
    {A : Type 0} {a : A} (b : Bool) (o : Option A)
    → (if b then o else none) ≡ some a
    → (b ≡ true) × (o ≡ some a)
if_some b o h = ground arith

strip_prefix-inv : (p key s : String) → strip_prefix p key ≡ some s → key ≡ String.◌++◌ p s
unfolding strip_prefix
strip_prefix-inv String.[] key s h = ground (arith, nil-append s)
strip_prefix-inv (String.◌∷◌ c p) String.[] s h = ground arith
strip_prefix-inv (String.◌∷◌ c p) (String.◌∷◌ d key) s h =
    let (same, rest) = if_some (nat_beq (code c) (code d)) (strip_prefix p key) h in
    ap₂ String.◌∷◌ (Char-path d c (ground (arith, same))) (strip_prefix-inv p key s rest)
    ∙ sym (cons-append c p s)

-- Texts are equal exactly if they are behind the same prefix.
same_test : (p m n : String) → (m == n) ≡ (String.◌++◌ p m == String.◌++◌ p n)
same_test p m n = elim (text_cases m n) [
  | inl (e, b) ↦ rw e (eq_refl n ∙ sym (eq_refl (String.◌++◌ p n)))
  | inr (ne, b) ↦ elim (text_cases (String.◌++◌ p m) (String.◌++◌ p n)) [
    | inl (e, _) ↦ absurd (ne (append_cancel_left p m n e))
    | inr (_, b') ↦ b ∙ sym b'
  ]
]

-- Adding a key of the environment changes the entry of its name alone.
lookup-add_named :
    (p key name value : String) (entries : StringMap)
    → lookup name (add_named (strip_prefix p key) value entries)
      ≡ (if key == String.◌++◌ p name then some value else lookup name entries)
lookup-add_named p key name value entries = elim (Option-cases (strip_prefix p key)) [
  | inl none_here ↦ elim (text_cases key (String.◌++◌ p name)) [
    | inl (same, _) ↦
        let found = ap (strip_prefix p) same ∙ strip_prefix-append p name in
        absurd (ground (arith, none_here, found))
    | inr (_, other) ↦ rw (none_here, other) refl
  ]
  | inr (m, here) ↦
      let whole = strip_prefix-inv p key m here in
      rw here (
        lookup-insert m name value entries
        ∙ ap (λ b. if b then some value else lookup name entries) (rw whole (same_test p m name)))
]

-- Whether the environment has an entry of the name.
abbrev pub is_named : List String → String → Bool
is_named environ key = list_contains_str (map key_of environ) key

abbrev pub value_of : List String → String → Option String
value_of environ key = if is_named environ key then some (get_env key environ) else none

if-same : {A : Type 0} (b : Bool) (a : A) → (if b then a else a) ≡ a
if-same b a = ground arith

merge :
    (environ : List String) (key k : String) (b : Bool) (old : Option String)
    → (if b then some (get_env k environ) else if key == k then some (get_env key environ) else old)
      ≡ (if (if key == k then true else b) then some (get_env k environ) else old)
merge environ key k b old = elim (text_cases key k) [
  | inl (e, _) ↦ rw (e, eq_refl k) (if-same b (some (get_env k environ)))
  | inr (_, e) ↦ rw e refl
]

-- One more entry, before the others.
added :
    (environ : List String) (key : String) (entries : List String) (p name : String)
    (old : StringMap)
    → let k = String.◌++◌ p name in
      let b = list_contains_str (map key_of entries) k in
      (if b
        then some (get_env k environ)
        else lookup name (add_named (strip_prefix p key) (get_env key environ) old))
      ≡ (if (if key == k then true else b) then some (get_env k environ) else lookup name old)
added environ key entries p name old =
    let k = String.◌++◌ p name in
    let b = list_contains_str (map key_of entries) k in
    ap (λ o. if b then some (get_env k environ) else o)
      (lookup-add_named p key name (get_env key environ) old)
    ∙ merge environ key k b (lookup name old)

read_entries-lookup :
    (environ entries : List String) (g : GlobalEnv) (name : String)
    → let g' = read_entries environ entries g in
      let var = String.◌++◌ "TFO_VAR_" name in
      let secret = String.◌++◌ "TFO_SECRET_" name in
      (lookup name g'.from_configmap_data ≡ (
        if list_contains_str (map key_of entries) var
        then some (get_env var environ)
        else lookup name g.from_configmap_data))
      × (lookup name g'.from_secret_data ≡ (
          if list_contains_str (map key_of entries) secret
          then some (get_env secret environ)
          else lookup name g.from_secret_data))
unfolding read_entries list_contains_str
read_entries-lookup environ [] g name = (refl, refl)
read_entries-lookup environ (env ∷ entries) g name =
    let key = key_of env in
    let value = get_env key environ in
    let next : GlobalEnv = record g {
      from_configmap_data = add_named (strip_prefix "TFO_VAR_" key) value g.from_configmap_data;
      from_secret_data = add_named (strip_prefix "TFO_SECRET_" key) value g.from_secret_data;
    } in
    let (later, later') = read_entries-lookup environ entries next name in
    (
      later ∙ added environ key entries "TFO_VAR_" name g.from_configmap_data,
      later' ∙ added environ key entries "TFO_SECRET_" name g.from_secret_data,
    )

-- A task gets what the environment of the manager names for it, and no more: the config map data
-- has a name exactly if the environment has `TFO_VAR_` and the name, the secret data exactly if it
-- has `TFO_SECRET_` and the name, each with the value that the environment gives.
pub global_env_of-lookup :
    (environ : List String) (name : String)
    → (lookup name (global_env_of environ).from_configmap_data
        ≡ value_of environ (String.◌++◌ "TFO_VAR_" name))
      × (lookup name (global_env_of environ).from_secret_data
          ≡ value_of environ (String.◌++◌ "TFO_SECRET_" name))
unfolding global_env_of lookup
global_env_of-lookup environ name = read_entries-lookup environ environ _ name
