-- ===== src/Cluster/Client.antt =====
-- The client of the API server: the calls that the operator makes, and what it relies on.
use terraform_operator.Prelude.{some, none, true, false, ◌≡◌, ◌≢◌, String, List, Option}
use terraform_operator.Cluster.{Bool, meta_of, Kind, Object, Pod}
use terraform_operator.Cluster.Effects.{not_found, already_exists, ApiError, M, api_result}
use terraform_operator.Api.Resource.{Terraform}

-- A read returns the object, or an error.
pub data Got (A : Type 0) : Type 0 where
  got : A → Got A
  failed : ApiError → Got A

-- A label selector with a field selector: the conditions that the operator writes.
pub data Condition : Type 0 where
  label_exists : String → Condition
  label_is label_is_not : String → String → Condition
  field_is field_is_not : String → String → Condition

-- Each call may meet a world that others have changed since the last one.
pub record Client : Type 1 where
  pub World : Type 0
  pub get : (kind : Kind) → (namespace name : String) → World → Got (Object kind) × World
  pub create : (kind : Kind) → Object kind → World → Option ApiError × World
  pub update : (kind : Kind) → Object kind → World → Option ApiError × World
  pub delete : (kind : Kind) → Object kind → World → Option ApiError × World
  pub delete_all_of : Kind → (namespace : String) → List Condition → World → Option ApiError × World
  pub list_pods : (namespace : String) → List Condition → World → Got (List Pod) × World
  pub get_terraform : (namespace name : String) → World → Got Terraform × World
  pub update_terraform : Terraform → World → Option ApiError × World
  pub update_status : Terraform → World → Option ApiError × World

module _ (c : Client) where
  open c use {World}

  abbrev pub create_object : (kind : Kind) → Object kind → M World (Unit {0})
  create_object kind o w = api_result (c.create kind o w)

  abbrev pub update_object : (kind : Kind) → Object kind → M World (Unit {0})
  update_object kind o w = api_result (c.update kind o w)

  abbrev pub delete_object : (kind : Kind) → Object kind → M World (Unit {0})
  delete_object kind o w = api_result (c.delete kind o w)

-- What the operator relies on while nobody else writes to the cluster: reads are answered and
-- change nothing, a created object is there afterwards, and a call leaves the other objects there.
-- `present` says whether an object of the kind and name is stored.
pub record IsQuiet (c : Client) : Type 0 where
  pub present : Kind → (namespace name : String) → c.World → Bool
  pub get_present :
      (kind : Kind) (namespace name : String) (w : c.World)
      → present kind namespace name w ≡ true
      → (o : Object kind) × (c.get kind namespace name w ≡ (got o, w))
  pub get_absent :
      (kind : Kind) (namespace name : String) (w : c.World)
      → present kind namespace name w ≡ false
      → c.get kind namespace name w ≡ (failed not_found, w)
  pub created :
      (kind : Kind) (o : Object kind) (w w' : c.World)
      → c.create kind o w ≡ (none, w')
      → present kind (meta_of kind o).namespace (meta_of kind o).name w' ≡ true
  pub existed :
      (kind : Kind) (o : Object kind) (w w' : c.World)
      → c.create kind o w ≡ (some already_exists, w')
      → present kind (meta_of kind o).namespace (meta_of kind o).name w' ≡ true
  pub create_keeps :
      (kind : Kind) (o : Object kind) (w : c.World) (k : Kind) (namespace name : String)
      → present k namespace name w ≡ true
      → present k namespace name (c.create kind o w).1 ≡ true
  pub update_keeps :
      (kind : Kind) (o : Object kind) (w : c.World) (k : Kind) (namespace name : String)
      → present k namespace name w ≡ true
      → present k namespace name (c.update kind o w).1 ≡ true
  pub delete_keeps :
      (kind : Kind) (o : Object kind) (w : c.World) (k : Kind) (namespace name : String)
      → k ≢ kind
      → present k namespace name w ≡ true
      → present k namespace name (c.delete kind o w).1 ≡ true

-- The helpers of controller-runtime for the finalizers of an object.
pub record ControllerUtil : Type 0 where
  pub contains_finalizer : List String → String → Bool
  pub add_finalizer : List String → String → List String
  pub remove_finalizer : List String → String → List String
