-- ===== src/Controller/Plugins.antt =====
-- Plugin tasks: getPluginRunOpts, getPluginSidecarPod and createPluginJob of
-- pkg/controllers/terraform_controller.go. The goroutine that creates the job is run to its end
-- before the status is written; its error is only logged.
pub mod Moving
use terraform_operator.Prelude.{String, List, [], ◌∷◌, ◌++◌}
use terraform_operator.Api.Task.{TaskName}
use terraform_operator.Api.Spec.{EnvFromSource, Plugin}
use terraform_operator.Api.Resource.{Terraform}
use terraform_operator.Cluster.Effects.{Error, M, pure, ◌>>◌, attempt}
use terraform_operator.Cluster.Client.{Client}
use terraform_operator.Controller.Options.{TaskOptions, Inherited, new_task_options}
use terraform_operator.Controller.PodTemplate.{Generated, generate_pod}
use terraform_operator.Controller.Ensure.{create_job}
use terraform_operator.Controller.Status.{update_status_with_retry}

-- The resource, whose images `newTaskOptions` may have filled in, and the options of the plugin.
unfoldable pub get_plugin_run_opts :
    (String → String)
    → Terraform
    → TaskName
    → Plugin
    → List EnvFromSource
    → Inherited
    → String
    → Terraform × TaskOptions
get_plugin_run_opts md5 tf name plugin env inherited approval =
    let (tf', r) = new_task_options md5 tf name tf.generation env inherited approval in
    (
      tf',
      record r {
        image = plugin.image_config.image;
        image_pull_policy = plugin.image_config.image_pull_policy;
      },
    )

unfoldable pub get_plugin_sidecar_pod :
    (String → String)
    → Terraform
    → TaskName
    → Plugin
    → List EnvFromSource
    → Inherited
    → String
    → Generated
unfolding get_plugin_run_opts
get_plugin_sidecar_pod md5 tf name plugin env inherited approval =
    generate_pod (get_plugin_run_opts md5 tf name plugin env inherited approval).1

abbrev pub plugin_started : Terraform → TaskName → Terraform
plugin_started tf name = record tf {
  status = record (tf.status) { plugins_started = tf.status.plugins_started ++ name ∷ [] };
}

module _ (c : Client) where
  open c use {World}

  unfoldable pub create_plugin_job :
      (String → String)
      → Terraform
      → TaskName
      → Plugin
      → List EnvFromSource
      → Inherited
      → String
      → M World (Unit {0})
  unfolding get_plugin_run_opts
  create_plugin_job md5 tf name plugin env inherited approval =
      let (tf', r) = get_plugin_run_opts md5 tf name plugin env inherited approval in
      attempt (create_job c r) (λ (e : Error). pure tt) (λ _. pure tt)
      >> update_status_with_retry c (plugin_started tf' name) (plugin_started tf' name).status
