-- ===== src/Tests/Fixtures.antt =====
-- A resource, its stage, and task options, as the tests of the operator would write them.
use terraform_operator.Prelude.{ℕ, false, [], ◌∷◌, none}
use terraform_operator.Api.Task.{TaskName, run_setup, run_plan, run_post_plan}
use terraform_operator.Api.Stage.{Stage, StatusPhase, StageState, can_not_be_interrupt, unix}
use terraform_operator.Api.Spec.{TerraformSpec, TaskOption, Module}
use terraform_operator.Api.Resource.{Terraform}
use terraform_operator.Controller.Options.{TaskOptions, no_address}

abbrev pub main_module : Module
main_module = record {
  source = "https://github.com/galleybytes/module.git";
  version = "";
  config_map_selector = none;
  config_map_seclector_x = none;
  inline = "";
}

-- An option for one task alone.
abbrev pub option_for : TaskName → TaskOption
option_for t = record {
  for = t ∷ [];
  policy_rules = [];
  labels = [];
  annotations = [];
  env_from = [];
  env = [];
  resources = none;
  script = record { source = ""; config_map_selector = none; inline = "" };
  restart_policy = "";
  volumes = [];
  volume_mounts = [];
}

abbrev pub plain_spec : TerraformSpec
plain_spec = record {
  keep_latest_pods_only = false;
  keep_completed_pods = false;
  outputs_secret = "";
  outputs_to_include = [];
  outputs_to_omit = [];
  write_outputs_to_status = false;
  persistent_volume_size = none;
  storage_class_name = none;
  service_account = "";
  credentials = [];
  ignore_delete = false;
  ssh_tunnel = none;
  scm_auth_methods = [];
  images = none;
  setup = none;
  terraform_module = main_module;
  terraform_version = "1.5.0";
  backend = "";
  task_options = option_for run_post_plan ∷ [];
  plugins = [];
  require_approval = false;
}

abbrev pub stage_of : ℕ → StageState → TaskName → Stage
stage_of generation state task = record {
  generation = generation;
  state = state;
  task_type = task;
  interruptible = can_not_be_interrupt;
  reason = "";
  start_time = unix 10;
  stop_time = unix 0;
  message = "";
  pod_name = "site-pod";
  pod_uid = "";
}

-- A resource of generation 2 in a phase and at a stage.
abbrev pub site : StatusPhase → Stage → Terraform
site phase stage = record {
  name = "site";
  namespace = "apps";
  uid = "u1";
  generation = 2;
  labels = [];
  finalizers = [];
  deletion_timestamp = none;
  spec = plain_spec;
  status = record {
    pod_name_prefix = "site-abcdefgh";
    phase = phase;
    last_completed_generation = 0;
    outputs = [];
    stage = stage;
    plugins_started = run_plan ∷ [];
    retry_event_reason = none;
    retry_timestamp = none;
  };
}

abbrev pub plain_options : TaskOptions
plain_options = record {
  annotations = [];
  config_map_source_name = "";
  config_map_source_key = "";
  credentials = [];
  env = [];
  env_from = [];
  generation = 2;
  image = "repo:1.5.0";
  image_pull_policy = "IfNotPresent";
  inherited_affinity = none;
  inherited_node_selector = [];
  inherited_tolerations = [];
  inline_task_execution_file = "default-terraform.sh";
  labels = [];
  main_module_plugin_data = [];
  namespace = "apps";
  outputs_secret_name = "site-abcdefgh-v2-outputs";
  outputs_to_include = [];
  outputs_to_omit = [];
  policy_rules = [];
  prefixed_name = "site-abcdefgh";
  resource_labels = [];
  resource_name = "site";
  resource_uuid = "u1";
  task = run_setup;
  save_outputs = false;
  secret_data = [];
  service_account = "tf-site-abcdefgh-v2";
  cleanup_disk = false;
  strip_generation_label_on_outputs_secret = false;
  terraform_module_parsed = no_address;
  terraform_version = "1.5.0";
  url_source = "";
  versioned_name = "site-abcdefgh-v2";
  require_approval = false;
  require_approval_image = "";
  restart_policy = "Never";
  volumes = [];
  volume_mounts = [];
  sidecar_plugins = [];
}
