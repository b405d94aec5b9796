-- ===== src/Controller/Reconcile/Sidecars.antt =====
-- The plugins of a task, in Reconcile of pkg/controllers/terraform_controller.go: sidecars of its
-- pod, and jobs that are created when Reconcile returns, the last one first.
use terraform_operator.Prelude.{
  String, Bool, true, false, List, [], ◌∷◌, ◌++◌, if◌then◌else◌, map, ◌||◌,
}
use terraform_operator.Utils.{list_contains_str}
use terraform_operator.Api.Task.{TaskName}
use terraform_operator.Api.Spec.{EnvFromSource, Plugin}
use terraform_operator.Api.Resource.{Terraform}
use terraform_operator.Cluster.{Pod, Container}
use terraform_operator.Cluster.Effects.{M, pure, attempt}
use terraform_operator.Cluster.Client.{Client}
use terraform_operator.Controller.Options.{Inherited, TaskOptions}
use terraform_operator.Controller.PodTemplate.{Generated, generated, invalid}
use terraform_operator.Controller.Plugins.{
  get_plugin_run_opts, get_plugin_sidecar_pod, create_plugin_job, plugin_started,
}
use terraform_operator.Controller.Packages.{Packages}
use terraform_operator.Controller.Reconcile.PluginUses.{
  skip, as_job, as_sidecar, plugin_use, needs_approval,
}

unfoldable pub get_container_names : Pod → List String
get_container_names pod = map (λ (c : Container). c.name) pod.spec.containers

-- What the loop has found: the resource, whose images the options of a plugin may fill in, the
-- names and pods of the sidecars, and the deferred jobs, the last one first.
pub record Chosen : Type 0 where
  pub tf : Terraform
  pub names : List String
  pub pods : List Pod
  pub jobs : List (TaskName × Plugin)

abbrev any_named : List String → List Container → Bool
any_named names [] = false
any_named names (c ∷ containers) = list_contains_str names c.name || any_named names containers

-- A pod with a container of a name that another sidecar has is left out.
unfoldable pub add_sidecar : Pod → Chosen → Chosen
unfolding get_container_names
add_sidecar pod s =
    if any_named s.names pod.spec.containers
    then s
    else record s { names = s.names ++ get_container_names pod; pods = s.pods ++ pod ∷ [] }

-- How the loop ends: with a plugin that the task must have and cannot, or with all plugins visited.
pub data Plugged : Type 0 where
  missing chosen : Chosen → Plugged

module _ (p : Packages) (env : List EnvFromSource) (inherited : Inherited) where
  -- The resource after the options of the plugin were made.
  abbrev pub after_options : Terraform → TaskName → Plugin → Terraform
  after_options tf name plugin =
      (get_plugin_run_opts p.md5 tf name plugin env inherited p.require_approval_image).0

  abbrev pub sidecar_pod : Terraform → TaskName → Plugin → Generated
  sidecar_pod tf name plugin =
      get_plugin_sidecar_pod p.md5 tf name plugin env inherited p.require_approval_image

  -- The loop over `spec.plugins`, in any order of the map.
  unfoldable pub choose_plugins :
      (pod_type : TaskName) → List (TaskName × Plugin) → Chosen → Plugged
  unfolding plugin_use get_plugin_sidecar_pod get_plugin_run_opts add_sidecar
  choose_plugins pod_type [] s = chosen s
  choose_plugins pod_type ((name, plugin) ∷ plugins) s =
      let after = record s { tf = after_options s.tf name plugin } in
      elim (plugin_use s.tf.status.plugins_started pod_type name plugin) [
        | skip ↦ choose_plugins pod_type plugins s
        | as_job ↦ choose_plugins pod_type plugins (record s { jobs = (name, plugin) ∷ s.jobs })
        | as_sidecar ↦ elim (sidecar_pod s.tf name plugin) [
          | invalid e ↦ elim plugin.must [
            | true ↦ missing after
            | false ↦ choose_plugins pod_type plugins after
          ]
          | generated pod ↦ choose_plugins pod_type plugins (add_sidecar pod after)
        ]
      ]

  abbrev pub approval_plugin : (image : String) → Plugin
  approval_plugin image = record {
    image_config = record { image = image; image_pull_policy = "IfNotPresent" };
    when = "";
    task = "";
    must = true;
  }

  -- The sidecar that waits for the approval of a plan.
  unfoldable pub add_approval : (pod_type : TaskName) → TaskOptions → Chosen → Plugged
  unfolding needs_approval get_plugin_sidecar_pod get_plugin_run_opts add_sidecar
  add_approval pod_type r s =
      let plugin = approval_plugin r.require_approval_image in
      let after = record s { tf = after_options s.tf "require-approval" plugin } in
      if needs_approval pod_type r.require_approval
      then elim (sidecar_pod s.tf "require-approval" plugin) [
        | invalid e ↦ missing after
        | generated pod ↦ chosen (add_sidecar pod after)
      ]
      else chosen s

  module _ (c : Client) where
    open c use {World}

    -- The deferred calls; each sees what those before did to the resource, and its error is dropped.
    unfoldable pub run_deferred : Terraform → List (TaskName × Plugin) → M World (Unit {0})
    unfolding create_plugin_job get_plugin_run_opts
    run_deferred tf [] = pure tt
    run_deferred tf ((name, plugin) ∷ jobs) =
        let rest = run_deferred (plugin_started (after_options tf name plugin) name) jobs in
        attempt (create_plugin_job c p.md5 tf name plugin env inherited p.require_approval_image)
          (λ e. rest) (λ _. rest)
