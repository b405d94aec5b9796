-- ===== src/Controller/Reconcile/PluginUses.antt =====
-- Which plugins take part in a task, in Reconcile of pkg/controllers/terraform_controller.go.
use terraform_operator.Prelude.{Bool, List, ◌==◌, if◌then◌else◌, ◌&&◌, ◌||◌, int_ltb, int_beq}
use terraform_operator.Api.Task.{TaskName, list_contains_task, id, run_plan, run_plan_delete}
use terraform_operator.Api.Spec.{Plugin}

-- How a plugin takes part in the task: not at all, as a job of its own, or as a sidecar.
pub data PluginUse : Type 0 where
  skip as_job as_sidecar : PluginUse

unfoldable pub plugin_use : List TaskName → TaskName → TaskName → Plugin → PluginUse
plugin_use started pod_type name plugin =
    if list_contains_task started name
    then skip
    else if plugin.when == "After"
    then (if int_ltb (id plugin.task) (id pod_type) then as_job else skip)
    else if plugin.when == "At"
    then (if int_beq (id plugin.task) (id pod_type) then as_job else skip)
    else if plugin.when == "Sidecar"
    then (if int_beq (id plugin.task) (id pod_type) then as_sidecar else skip)
    else skip

unfoldable pub needs_approval : TaskName → Bool → Bool
needs_approval pod_type require_approval =
    (pod_type == run_plan || pod_type == run_plan_delete) && require_approval
