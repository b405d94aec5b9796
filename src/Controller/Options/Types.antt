-- ===== src/Controller/Options/Types.antt =====
-- The types of the options: TaskOptions and ParsedAddress of
-- pkg/controllers/terraform_controller.go, and its lists of tasks.
use terraform_operator.Prelude.{ℕ, String, Bool, false, List, [], ◌∷◌, Option}
use terraform_operator.Api.Task.{
  TaskName, run_init, run_init_delete, run_plan, run_plan_delete, run_apply, run_apply_delete,
  run_pre_init, run_pre_init_delete, run_post_init, run_post_init_delete, run_pre_plan,
  run_pre_plan_delete, run_post_plan, run_post_plan_delete, run_pre_apply, run_pre_apply_delete,
  run_post_apply, run_post_apply_delete, run_setup, run_setup_delete,
}
use terraform_operator.Api.Spec.{
  StringMap, EnvVar, EnvFromSource, Volume, VolumeMount, PolicyRule, Credentials,
}
use terraform_operator.Cluster.{Pod}

abbrev pub terraform_task_list : List TaskName
terraform_task_list =
    run_init ∷ run_init_delete ∷ run_plan ∷ run_plan_delete ∷ run_apply ∷ run_apply_delete ∷ []

abbrev pub script_task_list : List TaskName
script_task_list =
    run_pre_init ∷ run_pre_init_delete ∷ run_post_init ∷ run_post_init_delete ∷ run_pre_plan
    ∷ run_pre_plan_delete ∷ run_post_plan ∷ run_post_plan_delete ∷ run_pre_apply
    ∷ run_pre_apply_delete ∷ run_post_apply ∷ run_post_apply_delete ∷ []

abbrev pub setup_task_list : List TaskName
setup_task_list = run_setup ∷ run_setup_delete ∷ []

pub record ParsedAddress : Type 0 where
  pub detected_scheme : String
  pub path : String
  pub use_as_var : Bool
  pub url : String
  pub files : List String
  pub hash : String
  pub url_scheme : String
  pub uri : String
  pub host : String
  pub port : String
  pub user : String
  pub repo : String

-- The zero value of the type.
abbrev pub no_address : ParsedAddress
no_address = record {
  detected_scheme = "";
  path = "";
  use_as_var = false;
  url = "";
  files = [];
  hash = "";
  url_scheme = "";
  uri = "";
  host = "";
  port = "";
  user = "";
  repo = "";
}

pub record TaskOptions : Type 0 where
  pub annotations : StringMap
  pub config_map_source_name : String
  pub config_map_source_key : String
  pub credentials : List Credentials
  pub env : List EnvVar
  pub env_from : List EnvFromSource
  pub generation : ℕ
  pub image : String
  pub image_pull_policy : String
  pub inherited_affinity : Option String
  pub inherited_node_selector : StringMap
  pub inherited_tolerations : List String
  pub inline_task_execution_file : String
  pub labels : StringMap
  pub main_module_plugin_data : StringMap
  pub namespace : String
  pub outputs_secret_name : String
  pub outputs_to_include : List String
  pub outputs_to_omit : List String
  pub policy_rules : List PolicyRule
  pub prefixed_name : String
  pub resource_labels : StringMap
  pub resource_name : String
  pub resource_uuid : String
  pub task : TaskName
  pub save_outputs : Bool
  pub secret_data : StringMap
  pub service_account : String
  pub cleanup_disk : Bool
  pub strip_generation_label_on_outputs_secret : Bool
  pub terraform_module_parsed : ParsedAddress
  pub terraform_version : String
  pub url_source : String
  pub versioned_name : String
  pub require_approval : Bool
  pub require_approval_image : String
  pub restart_policy : String
  pub volumes : List Volume
  pub volume_mounts : List VolumeMount
  pub sidecar_plugins : List Pod

-- The constraints that a task inherits from the operator's own deployment.
pub record Inherited : Type 0 where
  pub affinity : Option String
  pub node_selector : StringMap
  pub tolerations : List String
