-- ===== src/Controller/Options/Collecting.antt =====
-- What newTaskOptions collects from `spec.taskOptions` (pkg/controllers/terraform_controller.go).
use Prim.Native.String
use terraform_operator.Prelude.{
  String, List, [], ◌∷◌, ◌++◌, ◌==◌, if◌then◌else◌, Option, none, some, ◌||◌, insert_all,
}
use terraform_operator.Api.Task.{TaskName, list_contains_task}
use terraform_operator.Api.Spec.{
  StringMap, EnvVar, EnvFromSource, Volume, VolumeMount, PolicyRule, ConfigMapSelector, TaskOption,
}

-- What the loop over `spec.taskOptions` collects for one task.
pub record Collected : Type 0 where
  pub policy_rules : List PolicyRule
  pub labels : StringMap
  pub annotations : StringMap
  pub env : List EnvVar
  pub env_from : List EnvFromSource
  pub url_source : String
  pub config_map_source_name : String
  pub config_map_source_key : String
  pub restart_policy : String
  pub inline_task_execution_file : String
  pub volumes : List Volume
  pub volume_mounts : List VolumeMount

abbrev pub nothing_collected : List EnvFromSource → Collected
nothing_collected global_env_from = record {
  policy_rules = [];
  labels = [];
  annotations = [];
  env = [];
  env_from = global_env_from;
  url_source = "";
  config_map_source_name = "";
  config_map_source_key = "";
  restart_policy = "Never";
  inline_task_execution_file = "";
  volumes = [];
  volume_mounts = [];
}

-- The options for this task or for `*`.
unfoldable pub collect_shared : TaskOption → Collected → Collected
collect_shared option c = record c {
  policy_rules = c.policy_rules ++ option.policy_rules;
  annotations = insert_all option.annotations c.annotations;
  labels = insert_all option.labels c.labels;
  env = c.env ++ option.env;
  env_from = c.env_from ++ option.env_from;
  restart_policy = if option.restart_policy == "" then c.restart_policy else option.restart_policy;
  volumes = c.volumes ++ option.volumes;
  volume_mounts = c.volume_mounts ++ option.volume_mounts;
}

abbrev selector_name : Option ConfigMapSelector → String → String
selector_name none old = old
selector_name (some selector) old = selector.name

abbrev selector_key : Option ConfigMapSelector → String → String
selector_key none old = old
selector_key (some selector) old = selector.key

-- The options for this task alone.
unfoldable pub collect_script : TaskName → TaskOption → Collected → Collected
collect_script task option c = record c {
  url_source = option.script.source;
  config_map_source_name = selector_name option.script.config_map_selector c.config_map_source_name;
  config_map_source_key = selector_key option.script.config_map_selector c.config_map_source_key;
  inline_task_execution_file =
      if option.script.inline == ""
      then c.inline_task_execution_file
      else String.◌++◌ "inline-" (String.◌++◌ task ".sh");
}

unfoldable pub collect : TaskName → List TaskOption → Collected → Collected
unfolding collect_shared collect_script
collect task [] c = c
collect task (option ∷ options) c =
    let here = list_contains_task option.for task in
    let shared = if here || list_contains_task option.for "*" then collect_shared option c else c in
    collect task options (if here then collect_script task option shared else shared)
