-- ===== src/Controller/Reconcile/Start.antt =====
-- The first two reconciles of a resource, in Reconcile of pkg/controllers/terraform_controller.go.
use Prim.Native.String
use terraform_operator.Prelude.{ℕ, String, []}
use terraform_operator.Utils.{truncate_resource_name}
use terraform_operator.Api.Task.{run_setup}
use terraform_operator.Api.Stage.{initializing, state_initializing, can_not_be_interrupt}
use terraform_operator.Api.Resource.{Terraform, TerraformStatus}
use terraform_operator.Controller.Workflow.{new_stage}

abbrev pub with_status : Terraform → TerraformStatus → Terraform
with_status tf status = record tf { status = status }

-- The name of everything that belongs to the resource; `suffix` is the random text of eight
-- characters.
unfoldable pub initialize : (suffix : String) → Terraform → Terraform
initialize suffix tf = with_status tf (record (tf.status) {
  pod_name_prefix = String.◌++◌ (truncate_resource_name tf.name 54) (String.◌++◌ "-" suffix);
  last_completed_generation = 0;
  phase = initializing;
})

unfoldable pub first_stage : ℕ → Terraform → Terraform
unfolding new_stage
first_stage now tf =
    let (tf', stage) =
      new_stage now tf run_setup "TF_RESOURCE_CREATED" can_not_be_interrupt state_initializing in
    with_status tf' (record (tf'.status) { stage = stage; plugins_started = [] })
