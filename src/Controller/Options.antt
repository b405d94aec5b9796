-- ===== src/Controller/Options.antt =====
-- The options of a task: newTaskOptions of pkg/controllers/terraform_controller.go.
pub mod Types
pub mod Collecting
pub mod ImageChoice
pub mod ImageNames
unfoldable pub use Types.*
unfoldable pub use Collecting.*
unfoldable pub use ImageChoice.*
use Prim.Native.String
use terraform_operator.Prelude.{
  ℕ, String, Bool, true, false, List, [], ◌∷◌, ◌++◌, ◌==◌, if◌then◌else◌, Option, none, some, ◌&&◌,
  ◌||◌, not, ltb, length, take, split, join, decimal, insert, insert_all, int_beq, negsuc, ◌-◌,
}
use terraform_operator.Utils.{auto_hash_labeler}
use terraform_operator.Api.Task.{
  TaskName, list_contains_task, id, run_init, run_init_delete, run_plan, run_plan_delete, run_apply,
  run_apply_delete, run_pre_init, run_pre_init_delete, run_post_init, run_post_init_delete,
  run_pre_plan, run_pre_plan_delete, run_post_plan, run_post_plan_delete, run_pre_apply,
  run_pre_apply_delete, run_post_apply, run_post_apply_delete, run_setup, run_setup_delete,
}
use terraform_operator.Api.Spec.{
  StringMap, EnvVar, EnvFromSource, Volume, VolumeMount, PolicyRule, ConfigMapSelector, TaskOption,
  ImageConfig, Images, Setup, Credentials, TerraformSpec,
}
use terraform_operator.Api.Resource.{Terraform}
use terraform_operator.Cluster.{Pod}

-- The labels of all that belongs to the resource; those of a plugin say so.
unfoldable pub make_resource_labels :
    (String → String) → ℕ → (resource_name prefixed_name version : String) → TaskName → StringMap
unfolding auto_hash_labeler
make_resource_labels md5 generation resource_name prefixed_name version task =
    let labels : StringMap =
      ("terraforms.tf.galleybytes.com/generation", decimal generation)
      ∷ ("terraforms.tf.galleybytes.com/resourceName", auto_hash_labeler md5 resource_name)
      ∷ ("terraforms.tf.galleybytes.com/podPrefix", prefixed_name)
      ∷ ("terraforms.tf.galleybytes.com/terraformVersion", version)
      ∷ ("app.kubernetes.io/name", "terraform-operator")
      ∷ ("app.kubernetes.io/component", "terraform-operator-runner")
      ∷ ("app.kubernetes.io/created-by", "controller")
      ∷ [] in
    if int_beq (id task) (negsuc 1)
    then insert "terraforms.tf.galleybytes.com/isPlugin" "true" labels
    else labels

abbrev wants_cleanup : Option Setup → Bool
wants_cleanup none = false
wants_cleanup (some setup) = setup.cleanup_disk

-- The secret that the outputs are saved to, whether they are, and whether it outlives the
-- generation.
unfoldable pub outputs_of : TerraformSpec → String → String × Bool × Bool
outputs_of spec versioned_name =
    if not (spec.outputs_secret == "")
    then (spec.outputs_secret, true, true)
    else (String.◌++◌ versioned_name "-outputs", spec.write_outputs_to_status, false)

-- `newTaskOptions`: the resource, whose images it may have filled in, and the options.
unfoldable pub new_task_options :
    (String → String)
    → Terraform
    → TaskName
    → ℕ
    → List EnvFromSource
    → Inherited
    → String
    → Terraform × TaskOptions
unfolding collect fill_images choose_execution make_resource_labels outputs_of
new_task_options md5 tf task generation global_env_from inherited require_approval_image =
    let prefixed_name = tf.status.pod_name_prefix in
    let versioned_name = String.◌++◌ prefixed_name (String.◌++◌ "-v" (decimal tf.generation)) in
    let version = if tf.spec.terraform_version == "" then "latest" else tf.spec.terraform_version in
    let c = collect task tf.spec.task_options (nothing_collected global_env_from) in
    let images = fill_images tf.spec.images version in
    let exec = choose_execution images task c in
    let (outputs_secret_name, save_outputs, strip) = outputs_of tf.spec versioned_name in
    let spec : TerraformSpec = record (tf.spec) {
      images = elim tf.spec.images [ none ↦ none | some _ ↦ some images ];
    } in
    (
      record tf { spec = spec },
      record {
        annotations = c.annotations;
        config_map_source_name = c.config_map_source_name;
        config_map_source_key = c.config_map_source_key;
        credentials = tf.spec.credentials;
        env = c.env;
        env_from = c.env_from;
        generation = generation;
        image = exec.image;
        image_pull_policy = exec.image_pull_policy;
        inherited_affinity = inherited.affinity;
        inherited_node_selector = inherited.node_selector;
        inherited_tolerations = inherited.tolerations;
        inline_task_execution_file = exec.inline_task_execution_file;
        labels = c.labels;
        main_module_plugin_data = [];
        namespace = tf.namespace;
        outputs_secret_name = outputs_secret_name;
        outputs_to_include = tf.spec.outputs_to_include;
        outputs_to_omit = tf.spec.outputs_to_omit;
        policy_rules = c.policy_rules;
        prefixed_name = prefixed_name;
        resource_labels = make_resource_labels md5 generation tf.name prefixed_name version task;
        resource_name = tf.name;
        resource_uuid = tf.uid;
        task = task;
        save_outputs = save_outputs;
        secret_data = [];
        service_account =
            if tf.spec.service_account == ""
            then String.◌++◌ "tf-" versioned_name
            else tf.spec.service_account;
        cleanup_disk = wants_cleanup tf.spec.setup;
        strip_generation_label_on_outputs_secret = strip;
        terraform_module_parsed = no_address;
        terraform_version = version;
        url_source = c.url_source;
        versioned_name = versioned_name;
        require_approval = tf.spec.require_approval;
        require_approval_image = require_approval_image;
        restart_policy = c.restart_policy;
        volumes = c.volumes;
        volume_mounts = c.volume_mounts;
        sidecar_plugins = [];
      },
    )
