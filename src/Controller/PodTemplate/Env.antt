-- ===== src/Controller/PodTemplate/Env.antt =====
-- The environment of a task in generatePod of pkg/controllers/terraform_controller.go.
use Prim.Native.String
use terraform_operator.Prelude.{
  String, Bool, true, false, List, [], ◌∷◌, ◌++◌, ◌==◌, if◌then◌else◌, join, decimal,
}
use terraform_operator.Api.Spec.{EnvVar, value, field_ref}
use terraform_operator.Controller.Options.{TaskOptions, ParsedAddress}

abbrev pub home : String
home = "/home/tfo-runner"

unfoldable pub generation_path : TaskOptions → String
generation_path r = String.◌++◌ home (String.◌++◌ "/generations/" (decimal r.generation))

abbrev pub var : String → String → EnvVar
var name text = record { name = name; value = value text }

abbrev pub bool_text : Bool → String
bool_text true = "true"
bool_text false = "false"

-- The variables that every task has.
unfoldable pub task_env : TaskOptions → List EnvVar
unfolding generation_path
task_env r =
    record { name = "POD_UID"; value = field_ref "metadata.uid" }
    ∷ var "TFO_TASK" r.task
    ∷ var "TFO_TASK_EXEC_URL_SOURCE" r.url_source
    ∷ var "TFO_TASK_EXEC_CONFIGMAP_SOURCE_NAME" r.config_map_source_name
    ∷ var "TFO_TASK_EXEC_CONFIGMAP_SOURCE_KEY" r.config_map_source_key
    ∷ var "TFO_TASK_EXEC_INLINE_SOURCE_FILE" r.inline_task_execution_file
    ∷ var "TFO_RESOURCE" r.resource_name
    ∷ var "TFO_RESOURCE_UUID" r.resource_uuid
    ∷ var "TFO_NAMESPACE" r.namespace
    ∷ var "TFO_GENERATION" (decimal r.generation)
    ∷ var "TFO_GENERATION_PATH" (generation_path r)
    ∷ var "TFO_MAIN_MODULE" (String.◌++◌ (generation_path r) "/main")
    ∷ var "TFO_TERRAFORM_VERSION" r.terraform_version
    ∷ var "TFO_SAVE_OUTPUTS" (bool_text r.save_outputs)
    ∷ var "TFO_OUTPUTS_SECRET_NAME" r.outputs_secret_name
    ∷ var "TFO_OUTPUTS_TO_INCLUDE" (join r.outputs_to_include ",")
    ∷ var "TFO_OUTPUTS_TO_OMIT" (join r.outputs_to_omit ",")
    ∷ []

abbrev pub first_file : List String → String
first_file [] = "."
first_file (file ∷ files) = if file == "" then "." else file

-- Where the main module is, if it is in a repository.
unfoldable pub module_env : ParsedAddress → List EnvVar
module_env parsed =
    if parsed.repo == ""
    then []
    else var "TFO_MAIN_MODULE_REPO" parsed.repo
      ∷ var "TFO_MAIN_MODULE_REPO_REF" parsed.hash
      ∷ var "TFO_MAIN_MODULE_REPO_SUBDIR" (first_file parsed.files)
      ∷ []

unfoldable pub pod_env : TaskOptions → List EnvVar
unfolding task_env module_env
pod_env r =
    r.env
    ++ (task_env r
        ++ ((if r.cleanup_disk then var "TFO_CLEANUP_DISK" "true" ∷ [] else [])
            ++ (var "TFO_ROOT_PATH" home
                ∷ (module_env r.terraform_module_parsed
                    ++ (var "TFO_TASK_EXEC_CONFIGMAP_SOURCE_PATH" "/tmp/config-map-source"
                        ∷ var "TFO_MAIN_MODULE_ADDONS" "/tmp/main-module-addons"
                        ∷ var "GIT_ASKPASS" "/git/askpass/GIT_ASKPASS"
                        ∷ var "TFO_SSH" "/tmp/ssh"
                        ∷ [])))))
