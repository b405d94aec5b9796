-- ===== src/Controller/Reconcile/Adopting.antt =====
-- What Reconcile does with a new stage, in Reconcile of pkg/controllers/terraform_controller.go.
use terraform_operator.Prelude.{String, ◌==◌, if◌then◌else◌, Option, none, some, ◌||◌}
use terraform_operator.Api.Stage.{Stage}
use terraform_operator.Api.Resource.{Terraform}
use terraform_operator.Controller.Workflow.{Checked, panicked, checked}
use terraform_operator.Controller.Reconcile.Start.{with_status}

-- The reason that `removeOldPlan` is called with, if the new stage restarts a workflow: that of the
-- stage before.
unfoldable pub old_plan_reason : Terraform → Stage → Option String
old_plan_reason tf stage =
    if stage.reason == "RESTARTED_WORKFLOW" || stage.reason == "RESTARTED_DELETE_WORKFLOW"
    then some tf.status.stage.reason
    else none

-- The stage that `checkSetNewStage` found, if any, is put into the status; `none` is the panic.
unfoldable pub adopt_stage : Checked → Option Terraform
adopt_stage panicked = none
adopt_stage (checked tf none) = some tf
adopt_stage (checked tf (some stage)) = some (with_status tf (record (tf.status) { stage = stage }))
