-- ===== src/Api/Spec.antt =====
-- The spec of a Terraform resource (pkg/apis/tf/v1beta1/terraform_types.go). A Kubernetes type
-- that the operator only carries from the spec into a pod is a text, the value's manifest.
use terraform_operator.Prelude.{ℕ, String, Bool, List, Option}
use terraform_operator.Api.Task.{TaskName}

abbrev pub StringMap : Type 0
StringMap = List (String × String)

-- `corev1.EnvVar`: a literal value, or a source, of which the operator writes field references.
pub data EnvValue : Type 0 where
  value : String → EnvValue
  field_ref : String → EnvValue
  value_from : String → EnvValue

pub record EnvVar : Type 0 where
  pub name : String
  pub value : EnvValue

pub data EnvFromSource : Type 0 where
  config_map_ref : String → EnvFromSource
  secret_ref : String → EnvFromSource
  other : String → EnvFromSource

-- `corev1.KeyToPath`: key, path and mode.
pub record KeyToPath : Type 0 where
  pub key : String
  pub path : String
  pub mode : Option ℕ

pub data VolumeSource : Type 0 where
  persistent_volume_claim : (claim_name : String) (read_only : Bool) → VolumeSource
  config_map : String → VolumeSource
  secret :
      (secret_name : String) (default_mode : Option ℕ) (optional : Bool) (items : List KeyToPath)
      → VolumeSource
  other : String → VolumeSource

pub record Volume : Type 0 where
  pub name : String
  pub source : VolumeSource

pub record VolumeMount : Type 0 where
  pub name : String
  pub mount_path : String
  pub read_only : Bool

-- `rbacv1.PolicyRule`
pub record PolicyRule : Type 0 where
  pub verbs : List String
  pub api_groups : List String
  pub resources : List String
  pub resource_names : List String

pub record ConfigMapSelector : Type 0 where
  pub name : String
  pub key : String

pub record StageScript : Type 0 where
  pub source : String
  pub config_map_selector : Option ConfigMapSelector
  pub inline : String

pub record TaskOption : Type 0 where
  pub for : List TaskName
  pub policy_rules : List PolicyRule
  pub labels : StringMap
  pub annotations : StringMap
  pub env_from : List EnvFromSource
  pub env : List EnvVar
  pub resources : Option String
  pub script : StageScript
  pub restart_policy : String
  pub volumes : List Volume
  pub volume_mounts : List VolumeMount

pub record ImageConfig : Type 0 where
  pub image : String
  pub image_pull_policy : String

pub record Images : Type 0 where
  pub terraform : Option ImageConfig
  pub script : Option ImageConfig
  pub setup : Option ImageConfig

-- `Plugin` embeds `ImageConfig`.
pub record Plugin : Type 0 where
  pub image_config : ImageConfig
  pub when : String
  pub task : TaskName
  pub must : Bool

pub record ResourceDownload : Type 0 where
  pub address : String
  pub path : String
  pub use_as_var : Bool

pub record Setup : Type 0 where
  pub resource_downloads : List ResourceDownload
  pub cleanup_disk : Bool

-- `ConfigMapSeclector_x` is the deprecated spelling that the code still reads.
pub record Module : Type 0 where
  pub source : String
  pub version : String
  pub config_map_selector : Option ConfigMapSelector
  pub config_map_seclector_x : Option ConfigMapSelector
  pub inline : String

-- `SSHKeySecretRef` and `TokenSecretRef`, which have the same fields. Where the schema of the
-- resource requires a reference, the pointer to it is taken as set.
pub record SecretRef : Type 0 where
  pub name : String
  pub namespace : String
  pub key : String
  pub lock_secret_deletion : Bool

pub record GitSsh : Type 0 where
  pub require_proxy : Bool
  pub ssh_key_secret_ref : SecretRef

pub record GitHttps : Type 0 where
  pub require_proxy : Bool
  pub token_secret_ref : SecretRef

pub record GitScm : Type 0 where
  pub ssh : Option GitSsh
  pub https : Option GitHttps

pub record ScmAuthMethod : Type 0 where
  pub host : String
  pub git : Option GitScm

pub record ProxyOpts : Type 0 where
  pub host : String
  pub user : String
  pub ssh_key_secret_ref : SecretRef

pub record SecretNameRef : Type 0 where
  pub name : String
  pub namespace : String
  pub key : String

pub record AwsCredentials : Type 0 where
  pub irsa : String
  pub kiam : String

pub record Credentials : Type 0 where
  pub secret_name_ref : SecretNameRef
  pub aws : AwsCredentials
  pub service_account_annotations : StringMap

pub record TerraformSpec : Type 0 where
  pub keep_latest_pods_only : Bool
  pub keep_completed_pods : Bool
  pub outputs_secret : String
  pub outputs_to_include : List String
  pub outputs_to_omit : List String
  pub write_outputs_to_status : Bool
  pub persistent_volume_size : Option String
  pub storage_class_name : Option String
  pub service_account : String
  pub credentials : List Credentials
  pub ignore_delete : Bool
  pub ssh_tunnel : Option ProxyOpts
  pub scm_auth_methods : List ScmAuthMethod
  pub images : Option Images
  pub setup : Option Setup
  pub terraform_module : Module
  pub terraform_version : String
  pub backend : String
  pub task_options : List TaskOption
  pub plugins : List (TaskName × Plugin)
  pub require_approval : Bool
