-- ===== src/Cluster/Effects.antt =====
-- Calls that may fail and change the cluster: a Go function that returns an error, as a function
-- from the world to its result and the new world. A panic ends the call.
use terraform_operator.Prelude.{ap, arith, String, Bool, true, false, Option, none, some, ◌≡◌, refl}

-- The errors of the API server that the operator tells apart.
pub data ApiError : Type 0 where
  already_exists not_found : ApiError
  other : String → ApiError

abbrev pub is_not_found : ApiError → Bool
is_not_found not_found = true
is_not_found _ = false

abbrev pub is_already_exists : ApiError → Bool
is_already_exists already_exists = true
is_already_exists _ = false

-- An error of the API server that is passed on, or one that the operator makes.
pub data Error : Type 0 where
  api : ApiError → Error
  message : String → Error

pub data Result (A : Type 0) : Type 0 where
  ok : A → Result A
  err : Error → Result A
  panic : Result A

abbrev pub M : Type 0 → Type 0 → Type 0
M W A = W → Result A × W

module _ {W : Type 0} where
  abbrev pub pure : {A : Type 0} → A → M W A
  pure a w = (ok a, w)

  abbrev pub fail : {A : Type 0} → Error → M W A
  fail e w = (err e, w)

  abbrev pub crash : {A : Type 0} → M W A
  crash w = (panic, w)

  abbrev pub go_on : {A B : Type 0} → Result A × W → (A → M W B) → Result B × W
  go_on (ok a, w) f = f a w
  go_on (err e, w) f = (err e, w)
  go_on (panic, w) f = (panic, w)

  infixl 5 ◌>>=◌ ◌>>◌
  abbrev pub ◌>>=◌ : {A B : Type 0} → M W A → (A → M W B) → M W B
  ◌>>=◌ m f w = go_on (m w) f

  abbrev pub ◌>>◌ : {B : Type 0} → M W (Unit {0}) → M W B → M W B
  m >> k = m >>= λ _. k

  -- A call whose error is looked at: `err := f(); if err != nil { … }`.
  abbrev pub caught : {A B : Type 0} → Result A × W → (Error → M W B) → (A → M W B) → Result B × W
  caught (ok a, w) handler f = f a w
  caught (err e, w) handler f = handler e w
  caught (panic, w) handler f = (panic, w)

  abbrev pub attempt : {A B : Type 0} → M W A → (Error → M W B) → (A → M W B) → M W B
  attempt m handler f w = caught (m w) handler f

  -- The error of a call of the client, if it returned one.
  abbrev pub api_result : Option ApiError × W → Result (Unit {0}) × W
  api_result (none, w) = (ok tt, w)
  api_result (some e, w) = (err (api e), w)

  pub go_on-eq-ok :
      {A B : Type 0} (r : Result A × W) (f : A → M W B) {b : B} {w' : W}
      → go_on r f ≡ (ok b, w')
      → (a : A) × (v : W) × (r ≡ (ok a, v)) × (f a v ≡ (ok b, w'))
  go_on-eq-ok (ok a, v) f h = (a, v, refl, h)
  go_on-eq-ok (err e, v) f h = ground arith
  go_on-eq-ok (panic, v) f h = ground arith

  -- Inversion of a call that went on and succeeded.
  pub >>=-eq-ok :
      {A B : Type 0} (m : M W A) (f : A → M W B) (w : W) {b : B} {w' : W}
      → (m >>= f) w ≡ (ok b, w')
      → (a : A) × (v : W) × (m w ≡ (ok a, v)) × (f a v ≡ (ok b, w'))
  >>=-eq-ok m f w h = go_on-eq-ok (m w) f h

  -- What a call of the client says of the world and of success.
  pub api_result-world :
      (x : Option ApiError × W) {r : Result (Unit {0})} {w' : W} → api_result x ≡ (r, w') → x.1 ≡ w'
  api_result-world (none, w) e = ap (λ p. p.1) e
  api_result-world (some a, w) e = ap (λ p. p.1) e

  pub api_result-ok :
      (x : Option ApiError × W) {w' : W} → api_result x ≡ (ok tt, w') → x ≡ (none, w')
  api_result-ok (none, w) e = ap (λ v. (none, v)) (ap (λ p. p.1) e)
  api_result-ok (some a, w) e = ground arith

  -- The world of an equation between results.
  pub world_of :
      {A : Type 0} {r s : Result A} {w w' : W} → ◌≡◌ {A = Result A × W} (r, w) (s, w') → w ≡ w'
  world_of e = ap (λ p. p.1) e

  pub api_result-err :
      (x : Option ApiError × W) {a : ApiError} {w' : W}
      → api_result x ≡ (err (api a), w')
      → x ≡ (some a, w')
  api_result-err (none, w) e = ground arith
  api_result-err (some a, w) e = ground arith
