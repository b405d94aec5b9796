-- ===== src/Controller/Options/ImageChoice.antt =====
-- The images of the tasks in newTaskOptions (pkg/controllers/terraform_controller.go).
use Prim.Native.String
use terraform_operator.Prelude.{
  String, Bool, ◌==◌, if◌then◌else◌, Option, none, some, ◌&&◌, ◌||◌, ltb, length, take, split, join,
  ◌-◌,
}
use terraform_operator.Api.Task.{TaskName, list_contains_task}
use terraform_operator.Api.Spec.{ImageConfig, Images}
use terraform_operator.Controller.Options.Types.{
  terraform_task_list, script_task_list, setup_task_list,
}
use terraform_operator.Controller.Options.Collecting.{Collected}

abbrev pub default_image : Option ImageConfig → ImageConfig
default_image none = record { image = ""; image_pull_policy = "IfNotPresent" }
default_image (some config) = config

-- The image without what stands behind its last colon, with the version for a tag.
unfoldable pub terraform_image : String → String → String
terraform_image image version =
    if image == ""
    then String.◌++◌ "ghcr.io/galleybytes/terraform-operator-tftaskv1.1.1" (String.◌++◌ ":" version)
    else let parts = split image b':' in
      let base = if ltb 1 (length parts) then join (take (length parts - 1) parts) ":" else image in
      String.◌++◌ base (String.◌++◌ ":" version)

abbrev image_or : String → ImageConfig → ImageConfig
image_or default config = record config {
  image = if config.image == "" then default else config.image;
}

-- `images` points into the spec, if the spec has images: what is filled in stays there.
unfoldable pub fill_images : Option Images → String → Images
unfolding terraform_image
fill_images images version =
    let given : Images = elim images [
      | none ↦ record { terraform = none; script = none; setup = none }
      | some i ↦ i
    ] in
    let terraform = default_image given.terraform in
    record {
      terraform = some (record terraform { image = terraform_image terraform.image version });
      setup = some (
          image_or "ghcr.io/galleybytes/terraform-operator-setup:1.2.0"
            (default_image given.setup));
      script = some (
          image_or "ghcr.io/galleybytes/terraform-operator-script:1.2.1"
            (default_image given.script));
    }

-- The image, its pull policy and the script file of a task.
pub record Execution : Type 0 where
  pub image : String
  pub image_pull_policy : String
  pub inline_task_execution_file : String

abbrev execution : ImageConfig → Bool → (default given : String) → Execution
execution config use_default default given = record {
  image = config.image;
  image_pull_policy = config.image_pull_policy;
  inline_task_execution_file = if use_default then default else given;
}

unfoldable pub choose_execution : Images → TaskName → Collected → Execution
choose_execution images task c =
    let use_default =
      c.inline_task_execution_file == ""
      && c.url_source == ""
      && (c.config_map_source_key == "" || c.config_map_source_name == "") in
    if list_contains_task terraform_task_list task
    then execution (default_image images.terraform) use_default "default-terraform.sh"
        c.inline_task_execution_file
    else if list_contains_task script_task_list task
    then execution (default_image images.script) use_default "default-noop.sh"
        c.inline_task_execution_file
    else if list_contains_task setup_task_list task
    then execution (default_image images.setup) use_default "default-setup.sh"
        c.inline_task_execution_file
    else record {
      image = "";
      image_pull_policy = "Always";
      inline_task_execution_file = c.inline_task_execution_file;
    }
