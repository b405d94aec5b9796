-- ===== src/Prelude/Lists.antt =====
-- Lists measured by native numbers, and association lists with text keys (the program's maps).
use Prim.Native.Nat.{ℕ, zero, suc, ◌+◌}
use Prim.Native.String.{String}
use mathlib.Core.Path.{◌≡◌, refl}
use mathlib.Core.List.{List, [], ◌∷◌, ◌++◌}
use mathlib.Core.Option.{Option, none, some}
use native.Mathlib.Omega.{arith}
use text.Mathlib.Text.{◌==◌}
use text.Mathlib.TextEquality.{eq_iff}
use terraform_operator.Prelude.Tests.{if◌then◌else◌}

module _ {ℓ} {A : Type ℓ} where
  abbrev pub length : List A → ℕ
  length [] = 0
  length (x ∷ xs) = suc (length xs)

  abbrev pub take : ℕ → List A → List A
  take zero xs = []
  take (suc n) [] = []
  take (suc n) (x ∷ xs) = x ∷ take n xs

  abbrev pub drop : ℕ → List A → List A
  drop zero xs = xs
  drop (suc n) [] = []
  drop (suc n) (x ∷ xs) = drop n xs

  abbrev pub get_elem? : List A → ℕ → Option A
  get_elem? [] i = none
  get_elem? (x ∷ xs) zero = some x
  get_elem? (x ∷ xs) (suc i) = get_elem? xs i

  pub length-append : (xs ys : List A) → length (xs ++ ys) ≡ length xs + length ys
  length-append [] ys = omega arith
  length-append (x ∷ xs) ys = omega (arith, length-append xs ys)

module _ {ℓ κ} {A : Type ℓ} (P : A → Type κ) where
  abbrev pub All : List A → Type κ
  All [] = Unit
  All (x ∷ xs) = P x × All xs

  pub All-append : (xs ys : List A) → All xs → All ys → All (xs ++ ys)
  All-append [] ys hx hy = hy
  All-append (x ∷ xs) ys hx hy = (hx.0, All-append xs ys hx.1 hy)

module _ {ℓ} {V : Type ℓ} where
  unfoldable pub lookup : String → List (String × V) → Option V
  lookup key [] = none
  lookup key ((other, old) ∷ rest) =
      let later = lookup key rest in if other == key then some old else later

  unfoldable pub insert : String → V → List (String × V) → List (String × V)
  insert key value [] = (key, value) ∷ []
  insert key value ((other, old) ∷ rest) =
      let later = insert key value rest in
      if other == key then (other, value) ∷ rest else (other, old) ∷ later

  -- `for key, value := range source { target[key] = value }`
  unfoldable pub insert_all : List (String × V) → List (String × V) → List (String × V)
  insert_all [] target = target
  insert_all (entry ∷ source) target = insert_all source (insert entry.0 entry.1 target)

  unfoldable pub delete : String → List (String × V) → List (String × V)
  delete key [] = []
  delete key ((other, old) ∷ rest) =
      let later = delete key rest in if other == key then later else (other, old) ∷ later

  pub lookup-insert :
      (key wanted : String) (value : V) (entries : List (String × V))
      → lookup wanted (insert key value entries)
        ≡ (if key == wanted then some value else lookup wanted entries)
  unfolding lookup insert
  lookup-insert key wanted value [] = refl
  lookup-insert key wanted value ((other, old) ∷ rest) = ground (
    arith,
    lookup-insert key wanted value rest,
    eq_iff other wanted,
    eq_iff other key,
    eq_iff key wanted,
  )

  pub lookup-delete :
      (key wanted : String) (entries : List (String × V))
      → lookup wanted (delete key entries) ≡ (if key == wanted then none else lookup wanted entries)
  unfolding lookup delete
  lookup-delete key wanted [] = ground arith
  lookup-delete key wanted ((other, old) ∷ rest) = ground (
    arith,
    lookup-delete key wanted rest,
    eq_iff other wanted,
    eq_iff other key,
    eq_iff key wanted,
  )
