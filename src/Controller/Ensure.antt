-- ===== src/Controller/Ensure.antt =====
-- Looking up, deleting and creating one object: the check…Exists, delete…IfExists and create…
-- methods of pkg/controllers/terraform_controller.go. Owner references and events are left out.
pub mod Moving
pub mod Laws
use terraform_operator.Prelude.{
  String, Bool, true, false, List, [], ◌∷◌, if◌then◌else◌, Option, none, some, ◌&&◌, not,
  insert_all, delete,
}
use terraform_operator.Api.Spec.{StringMap}
use terraform_operator.Api.Resource.{Terraform}
use terraform_operator.Cluster.{
  Kind, config_map, secret, service_account, role, role_binding, claim, pod, job, Object, meta_of,
}
use terraform_operator.Cluster.Effects.{
  ApiError, is_not_found, is_already_exists, Error, api, message, Result, ok, err, panic, M, pure,
  fail, crash, ◌>>=◌, ◌>>◌, go_on, attempt, api_result, caught,
}
use terraform_operator.Cluster.Client.{Client, Got, got, failed, create_object, delete_object}
use terraform_operator.Controller.Options.{TaskOptions}
use terraform_operator.Controller.PodTemplate.{Generated, generated, invalid, generate_pod}
use terraform_operator.Controller.Objects.{
  generate_config_map, generate_service_account, generate_role, generate_role_binding, generate_pvc,
  generate_secret, generate_job,
}

-- `check…Exists`: the object, `none` for a `NotFound` error, or the other error.
abbrev pub found_or_error : {W A : Type 0} → Got A × W → Result (Option A) × W
found_or_error (got o, w) = (ok (some o), w)
found_or_error (failed e, w) = if is_not_found e then (ok none, w) else (err (api e), w)

abbrev pvc_size : Option String → String
pvc_size none = "2Gi"
pvc_size (some size) = size

module _ (c : Client) where
  open c use {World}

  unfoldable pub check_exists :
      (kind : Kind) → (namespace name : String) → M World (Option (Object kind))
  check_exists kind namespace name w = found_or_error (c.get kind namespace name w)

  abbrev delete_found : (kind : Kind) → Option (Object kind) → M World (Unit {0})
  delete_found kind none = pure tt
  delete_found kind (some o) = delete_object c kind o

  unfoldable pub delete_if_exists : (kind : Kind) → (namespace name : String) → M World (Unit {0})
  unfolding check_exists
  delete_if_exists kind namespace name = do
    found ← check_exists kind namespace name
    delete_found kind found

  -- Deletes the object of that name, if there is one, and creates the new one.
  unfoldable pub recreate : (kind : Kind) → Object kind → M World (Unit {0})
  unfolding delete_if_exists
  recreate kind o = do
    delete_if_exists kind (meta_of kind o).namespace (meta_of kind o).name
    create_object c kind o

  unfoldable pub check_persistent_volume_claim_exists :
      (namespace name : String) → M World (Option (Object claim))
  unfolding check_exists
  check_persistent_volume_claim_exists = check_exists claim

  abbrev create_missing_claim : Object claim → Option (Object claim) → M World (Unit {0})
  create_missing_claim o (some _) = pure tt
  create_missing_claim o none = create_object c claim o

  -- An error of the lookup is dropped: the claim is then taken to be there.
  unfoldable pub create_pvc : Terraform → TaskOptions → M World (Unit {0})
  unfolding check_persistent_volume_claim_exists
  create_pvc tf r =
      let size = pvc_size tf.spec.persistent_volume_size in
      attempt (check_persistent_volume_claim_exists r.namespace r.prefixed_name) (λ e. pure tt)
        (create_missing_claim (generate_pvc r size tf.spec.storage_class_name))

  unfoldable pub check_config_map_exists :
      (namespace name : String) → M World (Option (Object config_map))
  unfolding check_exists
  check_config_map_exists = check_exists config_map

  unfoldable pub delete_config_map_if_exists : (namespace name : String) → M World (Unit {0})
  unfolding delete_if_exists
  delete_config_map_if_exists = delete_if_exists config_map

  unfoldable pub create_config_map : TaskOptions → M World (Unit {0})
  unfolding recreate
  create_config_map r = recreate config_map (generate_config_map r)

  unfoldable pub check_secret_exists : (namespace name : String) → M World (Option (Object secret))
  unfolding check_exists
  check_secret_exists = check_exists secret

  unfoldable pub delete_secret_if_exists : (namespace name : String) → M World (Unit {0})
  unfolding delete_if_exists
  delete_secret_if_exists = delete_if_exists secret

  abbrev omit : List String → StringMap → StringMap
  omit [] labels = labels
  omit (key ∷ keys) labels = omit keys (delete key labels)

  -- A secret that need not be new may exist already.
  abbrev tolerate : Bool → Result (Unit {0}) × World → Result (Unit {0}) × World
  tolerate recreated (err (api e), w) =
      if not recreated && is_already_exists e then (ok tt, w) else (err (api e), w)
  tolerate recreated (err (message m), w) = (err (message m), w)
  tolerate recreated (ok u, w) = (ok u, w)
  tolerate recreated (panic, w) = (panic, w)

  unfoldable pub create_secret :
      (name namespace : String) → StringMap → Bool → List String → TaskOptions → M World (Unit {0})
  unfolding delete_if_exists
  create_secret name namespace contents recreated labels_to_omit r =
      let labels = omit labels_to_omit (insert_all r.resource_labels []) in
      let o = generate_secret name namespace contents labels in
      do
        if recreated then delete_if_exists secret namespace name else pure tt
        (λ w. tolerate recreated (create_object c secret o w))

  unfoldable pub check_service_account_exists :
      (namespace name : String) → M World (Option (Object service_account))
  unfolding check_exists
  check_service_account_exists = check_exists service_account

  unfoldable pub delete_service_account_if_exists : (namespace name : String) → M World (Unit {0})
  unfolding delete_if_exists
  delete_service_account_if_exists = delete_if_exists service_account

  unfoldable pub create_service_account : TaskOptions → M World (Unit {0})
  unfolding recreate
  create_service_account r = recreate service_account (generate_service_account r)

  unfoldable pub check_role_exists : (namespace name : String) → M World (Option (Object role))
  unfolding check_exists
  check_role_exists = check_exists role

  unfoldable pub delete_role_if_exists : (namespace name : String) → M World (Unit {0})
  unfolding delete_if_exists
  delete_role_if_exists = delete_if_exists role

  unfoldable pub create_role : TaskOptions → M World (Unit {0})
  unfolding recreate
  create_role r = recreate role (generate_role r)

  unfoldable pub check_role_binding_exists :
      (namespace name : String) → M World (Option (Object role_binding))
  unfolding check_exists
  check_role_binding_exists = check_exists role_binding

  unfoldable pub delete_role_binding_if_exists : (namespace name : String) → M World (Unit {0})
  unfolding delete_if_exists
  delete_role_binding_if_exists = delete_if_exists role_binding

  unfoldable pub create_role_binding : TaskOptions → M World (Unit {0})
  unfolding recreate
  create_role_binding r = recreate role_binding (generate_role_binding r)

  abbrev pub create_generated : Generated → M World (Unit {0})
  create_generated (generated p) = create_object c pod p
  create_generated (invalid e) = fail (message e)

  unfoldable pub create_pod : TaskOptions → M World (Unit {0})
  create_pod r = create_generated (generate_pod r)

  unfoldable pub create_job : TaskOptions → M World (Unit {0})
  create_job r = elim (generate_job r) [ none ↦ crash | some j ↦ create_object c job j ]
