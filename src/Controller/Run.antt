-- ===== src/Controller/Run.antt =====
-- Running a task: createEnvFromSources, listEnvFromSources and run of
-- pkg/controllers/terraform_controller.go.
pub mod Moving
pub mod Ready
use Prim.Native.String
use terraform_operator.Prelude.{
  String, Bool, true, false, List, [], ◌∷◌, ◌++◌, ◌==◌, if◌then◌else◌, Option, none, some, ◌&&◌,
  ◌||◌, not,
}
use terraform_operator.Api.Spec.{StringMap, EnvFromSource, config_map_ref, secret_ref}
use terraform_operator.Api.Resource.{Terraform}
use terraform_operator.Cluster.{
  Kind, config_map, secret, service_account, role, role_binding, claim, Object, ConfigMap, Secret,
  ObjectMeta,
}
use terraform_operator.Cluster.Effects.{
  ApiError, is_already_exists, Error, api, message, Result, ok, err, panic, M, pure, fail, ◌>>=◌,
  ◌>>◌, go_on, attempt, caught, api_result,
}
use terraform_operator.Cluster.Client.{Client, create_object, update_object}
use terraform_operator.Controller.Options.{TaskOptions}
use terraform_operator.Controller.Ensure.{
  check_persistent_volume_claim_exists, create_pvc, check_config_map_exists, create_config_map,
  check_secret_exists, create_secret, check_service_account_exists, create_service_account,
  check_role_exists, create_role, check_role_binding_exists, create_role_binding, create_pod,
}

-- The environment that the controller gives to every task.
pub record GlobalEnv : Type 0 where
  pub from_configmap_data : StringMap
  pub from_secret_data : StringMap
  pub suffix : String

abbrev env_name : GlobalEnv → Terraform → String
env_name g tf = String.◌++◌ tf.name (String.◌++◌ "-" g.suffix)

abbrev is_nonempty {ℓ} : {A : Type ℓ} → List A → Bool
is_nonempty [] = false
is_nonempty (x ∷ xs) = true

abbrev env_meta : GlobalEnv → Terraform → ObjectMeta
env_meta g tf = record {
  name = env_name g tf;
  generate_name = "";
  namespace = tf.namespace;
  labels = [];
  annotations = [];
  finalizers = [];
}

unfoldable pub list_env_from_sources : GlobalEnv → Terraform → List EnvFromSource
list_env_from_sources g tf =
    (if is_nonempty g.from_configmap_data then config_map_ref (env_name g tf) ∷ [] else [])
    ++ (if is_nonempty g.from_secret_data then secret_ref (env_name g tf) ∷ [] else [])

abbrev absent : (what namespace name : String) → Error
absent what namespace name = message (
    String.◌++◌ "could not find " (
      String.◌++◌ what
        (String.◌++◌ " '" (String.◌++◌ namespace (String.◌++◌ "/" (String.◌++◌ name "'"))))))

-- `if _, found, err := check(…); err != nil { return err } else if !found { return … }`
abbrev required : {W A : Type 0} → Error → Option A → M W (Unit {0})
required e none = fail e
required e (some _) = pure tt

module _ (c : Client) where
  open c use {World}

  -- Creates the object, or updates the one that exists.
  update_existing :
      (kind : Kind) → Object kind → Option ApiError × World → Result (Unit {0}) × World
  update_existing kind o (none, w) = (ok tt, w)
  update_existing kind o (some e, w) =
      if is_already_exists e then update_object c kind o w else (err (api e), w)

  create_or_update : (kind : Kind) → Object kind → M World (Unit {0})
  unfolding update_existing
  create_or_update kind o w = update_existing kind o (c.create kind o w)

  unfoldable pub create_env_from_sources : GlobalEnv → Terraform → M World (Unit {0})
  unfolding create_or_update
  create_env_from_sources g tf = do
    if is_nonempty g.from_configmap_data
        then create_or_update config_map
            (record { meta = env_meta g tf; data_map = g.from_configmap_data })
        else pure tt
    if is_nonempty g.from_secret_data
        then create_or_update secret
            (record { meta = env_meta g tf; data_map = g.from_secret_data })
        else pure tt

  -- The branch of a new generation or the first installation.
  unfoldable pub create_all : GlobalEnv → Terraform → TaskOptions → M World (Unit {0})
  unfolding create_env_from_sources create_pvc create_secret create_config_map create_role_binding
      create_role create_service_account
  create_all g tf r = do
    create_env_from_sources g tf
    create_pvc c tf r
    create_secret c r.versioned_name r.namespace r.secret_data true [] r
    create_config_map c r
    create_role_binding c r
    create_role c r
    if tf.spec.service_account == "" then create_service_account c r else pure tt
    create_secret c r.outputs_secret_name r.namespace [] false
        (if r.strip_generation_label_on_outputs_secret
          then "terraforms.tf.galleybytes.com/generation" ∷ []
          else [])
        r

  -- The branch of any other stage.
  unfoldable pub check_all : TaskOptions → M World (Unit {0})
  unfolding check_persistent_volume_claim_exists check_config_map_exists check_secret_exists
      check_role_binding_exists check_role_exists check_service_account_exists
  check_all r = do
    volume ← check_persistent_volume_claim_exists c r.namespace r.prefixed_name
    required (absent "PersistentVolumeClaim" r.namespace r.prefixed_name) volume
    scripts ← check_config_map_exists c r.namespace r.versioned_name
    required (absent "ConfigMap" r.namespace r.versioned_name) scripts
    keys ← check_secret_exists c r.namespace r.versioned_name
    required (absent "Secret" r.namespace r.versioned_name) keys
    binding ← check_role_binding_exists c r.namespace r.versioned_name
    required (absent "RoleBinding" r.namespace r.versioned_name) binding
    rights ← check_role_exists c r.namespace r.versioned_name
    required (absent "Role" r.namespace r.versioned_name) rights
    account ← check_service_account_exists c r.namespace r.service_account
    required (absent "ServiceAccount" r.namespace r.service_account) account

  unfoldable pub run :
      GlobalEnv
      → Terraform
      → TaskOptions
      → (is_new_generation is_first_install : Bool) → M World (Unit {0})
  unfolding create_all check_all create_pod
  run g tf r is_new_generation is_first_install = do
    if is_first_install || is_new_generation then create_all g tf r else check_all r
    create_pod c r
