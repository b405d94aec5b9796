-- ===== src/Cluster/Moving.antt =====
-- What every call does to the world at most: a relation between the world before and after, one rule
-- for each way to build a call.
use terraform_operator.Prelude.{
  [], ◌∷◌, String, List, Bool, true, false, if◌then◌else◌, Option, none, some,
}
use terraform_operator.Api.Resource.{Terraform}
use terraform_operator.Cluster.{Kind, Object}
use terraform_operator.Cluster.Effects.{
  ApiError, Error, Result, ok, err, panic, M, pure, fail, crash, go_on, ◌>>=◌, ◌>>◌, caught,
  attempt, api_result,
}
use terraform_operator.Cluster.Client.{
  Client, Condition, create_object, update_object, delete_object,
}

pub record Moves {W A : Type 0} (R : W → W → Type 0) (m : M W A) : Type 0 where
  pub at : (w : W) → R w (m w).1

-- The calls of the client move the world along the relation, but for the update of the resource
-- itself, of which more has to be known.
pub record Allows (c : Client) (R : c.World → c.World → Type 0) : Type 0 where
  pub stay : (w : c.World) → R w w
  pub trans : (u v w : c.World) → R u v → R v w → R u w
  pub get :
      (kind : Kind) (namespace name : String) (w : c.World) → R w (c.get kind namespace name w).1
  pub create : (kind : Kind) (o : Object kind) (w : c.World) → R w (c.create kind o w).1
  pub update : (kind : Kind) (o : Object kind) (w : c.World) → R w (c.update kind o w).1
  pub delete : (kind : Kind) (o : Object kind) (w : c.World) → R w (c.delete kind o w).1
  pub delete_all_of :
      (kind : Kind) (namespace : String) (selector : List Condition) (w : c.World)
      → R w (c.delete_all_of kind namespace selector w).1
  pub list_pods :
      (namespace : String) (selector : List Condition) (w : c.World)
      → R w (c.list_pods namespace selector w).1
  pub get_terraform :
      (namespace name : String) (w : c.World) → R w (c.get_terraform namespace name w).1
  pub update_status : (tf : Terraform) (w : c.World) → R w (c.update_status tf w).1

module _ (c : Client) {R : c.World → c.World → Type 0} (a : Allows c R) where
  open c use {World}

  pub Moves-pure : {A : Type 0} (x : A) → Moves {W = World} R (pure x)
  Moves-pure x = record { at = a.stay }

  pub Moves-fail : {A : Type 0} (e : Error) → Moves {W = World} {A = A} R (fail e)
  Moves-fail e = record { at = a.stay }

  pub Moves-crash : {A : Type 0} → Moves {W = World} {A = A} R crash
  Moves-crash = record { at = a.stay }

  pub go_on-moves :
      {A B : Type 0} (w : World) (x : Result A × World) (f : A → M World B)
      → R w x.1
      → ((y : A) → Moves R (f y))
      → R w (go_on x f).1
  go_on-moves w (ok y, v) f h k = a.trans w v (f y v).1 h ((k y).at v)
  go_on-moves w (err e, v) f h k = h
  go_on-moves w (panic, v) f h k = h

  pub Moves-bind :
      {A B : Type 0} (m : M World A) (f : A → M World B)
      → Moves R m
      → ((y : A) → Moves R (f y))
      → Moves R (m >>= f)
  Moves-bind m f h k = record { at = λ w. go_on-moves w (m w) f (h.at w) k }

  pub Moves-then :
      {B : Type 0} (m : M World (Unit {0})) (n : M World B)
      → Moves R m
      → Moves R n
      → Moves R (m >> n)
  Moves-then m n h k = record { at = λ w. go_on-moves w (m w) (λ _. n) (h.at w) (λ _. k) }

  pub caught-moves :
      {A B : Type 0} (w : World) (x : Result A × World) (g : Error → M World B) (f : A → M World B)
      → R w x.1
      → ((e : Error) → Moves R (g e))
      → ((y : A) → Moves R (f y))
      → R w (caught x g f).1
  caught-moves w (ok y, v) g f h j k = a.trans w v (f y v).1 h ((k y).at v)
  caught-moves w (err e, v) g f h j k = a.trans w v (g e v).1 h ((j e).at v)
  caught-moves w (panic, v) g f h j k = h

  pub Moves-attempt :
      {A B : Type 0} (m : M World A) (g : Error → M World B) (f : A → M World B)
      → Moves R m
      → ((e : Error) → Moves R (g e))
      → ((y : A) → Moves R (f y))
      → Moves R (attempt m g f)
  Moves-attempt m g f h j k = record { at = λ w. caught-moves w (m w) g f (h.at w) j k }

  -- A call of which the result does not matter.
  pub Moves-ignored :
      {A : Type 0} (m : M World A)
      → Moves R m
      → Moves R (attempt m (λ e. pure (tt {0})) (λ _. pure tt))
  Moves-ignored m h =
      Moves-attempt m (λ e. pure tt) (λ _. pure tt) h (λ e. Moves-pure tt) (λ _. Moves-pure tt)

  pub Moves-if :
      {A : Type 0} (b : Bool) (m n : M World A)
      → Moves R m
      → Moves R n
      → Moves R (if b then m else n)
  Moves-if true m n h k = h
  Moves-if false m n h k = k

  pub api_result-moves : (w : World) (x : Option ApiError × World) → R w x.1 → R w (api_result x).1
  api_result-moves w (none, v) h = h
  api_result-moves w (some e, v) h = h

  pub create_object-Moves : (kind : Kind) (o : Object kind) → Moves R (create_object c kind o)
  create_object-Moves kind o = record {
    at = λ w. api_result-moves w (c.create kind o w) (a.create kind o w);
  }

  pub update_object-Moves : (kind : Kind) (o : Object kind) → Moves R (update_object c kind o)
  update_object-Moves kind o = record {
    at = λ w. api_result-moves w (c.update kind o w) (a.update kind o w);
  }

  pub delete_object-Moves : (kind : Kind) (o : Object kind) → Moves R (delete_object c kind o)
  delete_object-Moves kind o = record {
    at = λ w. api_result-moves w (c.delete kind o w) (a.delete kind o w);
  }

  pub Moves-option :
      {A B : Type 0} (o : Option A) (n : M World B) (f : A → M World B)
      → Moves R n
      → ((x : A) → Moves R (f x))
      → Moves R (elim o [ none ↦ n | some x ↦ f x ])
  Moves-option none n f h k = h
  Moves-option (some x) n f h k = k x

  pub Moves-list :
      {A B : Type 0} (l : List A) (m n : M World B)
      → Moves R m
      → Moves R n
      → Moves R (elim l [ [] ↦ m | _ ∷ _ ↦ n ])
  Moves-list [] m n h k = h
  Moves-list (x ∷ l) m n h k = k
