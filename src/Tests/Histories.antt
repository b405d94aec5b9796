-- ===== src/Tests/Histories.antt =====
-- A resource on its way to the task behind the plan.
use terraform_operator.Prelude.{
  ◌↔◌, String, false, [], ◌∷◌, ◌≡◌, refl, some, arith, ◌==◌, if◌then◌else◌, to_upper,
}
use terraform_operator.Api.Task.{
  id, TaskName, run_init, run_plan, run_post_plan, list_contains_task,
}
use terraform_operator.Api.Task.Lists.{list_contains_task_iff}
use terraform_operator.Api.Stage.{
  Stage, initializing, state_initializing, can_not_be_interrupt, can_be_interrupt,
}
use terraform_operator.Api.Resource.{Terraform}
use terraform_operator.Controller.Workflow.{
  check_set_new_stage, checked, new_stage, tasks_in_order, next_task, is_task_interruptable,
  get_configured_tasks,
}
use terraform_operator.Controller.Workflow.Entries.{Enters, check_set_new_stage_iff}
use terraform_operator.Controller.Workflow.Gates.{plan}
use terraform_operator.Controller.Reconcile.{first_stage, observe_pod, with_status}
use terraform_operator.Controller.Reconcile.Histories.{
  History, created, observed, moved, Completed, History-passed,
}
use terraform_operator.Tests.Fixtures.{site, stage_of}
use terraform_operator.Tests.Pods.{done, no_pods}

abbrev at_stage : Terraform → Stage → Terraform
at_stage tf stage = with_status tf (record (tf.status) { stage = stage })

abbrev passed : Terraform → Terraform
passed tf = observe_pod 5 done tf

abbrev after_task : Terraform → TaskName → String → Stage
after_task tf task reason =
    (new_stage 7 (passed tf) task reason
      (if task == run_post_plan then can_be_interrupt else can_not_be_interrupt)
      state_initializing).1

abbrev at_setup : Terraform
at_setup = first_stage 1 (site initializing (stage_of 0 "" ""))

abbrev at_init : Terraform
at_init = at_stage at_setup (after_task at_setup run_init "COMPLETED_SETUP")

abbrev at_plan : Terraform
at_plan = at_stage at_init (after_task at_init run_plan "COMPLETED_INIT")

abbrev at_post_plan : Terraform
at_post_plan = at_stage at_plan (after_task at_plan run_post_plan "COMPLETED_PLAN")

to_init :
    check_set_new_stage no_pods 7 (passed at_setup) false
    ≡ checked (passed at_setup) (some at_init.status.stage)
unfolding check_set_new_stage first_stage observe_pod to_upper next_task is_task_interruptable
    list_contains_task get_configured_tasks
to_init = refl

to_plan :
    check_set_new_stage no_pods 7 (passed at_init) false
    ≡ checked (passed at_init) (some at_plan.status.stage)
unfolding check_set_new_stage first_stage observe_pod to_upper next_task is_task_interruptable
    list_contains_task get_configured_tasks
to_plan = refl

to_post_plan :
    check_set_new_stage no_pods 7 (passed at_plan) false
    ≡ checked (passed at_plan) (some at_post_plan.status.stage)
unfolding check_set_new_stage first_stage observe_pod to_upper next_task is_task_interruptable
    list_contains_task get_configured_tasks
to_post_plan = refl

to_setup : History (at_setup.status.stage ∷ [])
to_setup = created 1 (site initializing (stage_of 0 "" ""))

history : History (
    at_post_plan.status.stage
    ∷ (passed at_plan).status.stage
    ∷ (passed at_init).status.stage
    ∷ (passed at_setup).status.stage
    ∷ [])
unfolding first_stage observe_pod new_stage
history =
    let init =
      moved no_pods 7 (passed at_setup) (passed at_setup) false at_init.status.stage to_init
        (observed 5 done at_setup to_setup) in
    let planned =
      moved no_pods 7 (passed at_init) (passed at_init) false at_plan.status.stage to_plan
        (observed 5 done at_init init) in
    moved no_pods 7 (passed at_plan) (passed at_plan) false at_post_plan.status.stage to_post_plan
      (observed 5 done at_plan planned)

gate_passed_example : Completed run_plan at_post_plan.status.stage.generation (
    (passed at_plan).status.stage
    ∷ (passed at_init).status.stage
    ∷ (passed at_setup).status.stage
    ∷ [])
unfolding id new_stage list_contains_task
gate_passed_example =
    History-passed history plan ((list_contains_task_iff tasks_in_order run_post_plan).0 refl)
      (omega arith)

machine_example :
    ((tf' : Terraform) × (stage : Stage) × (check_set_new_stage no_pods 7 (passed at_plan) false
        ≡ checked tf' (some stage))
      × (stage.task_type ≡ run_post_plan))
    ↔ Enters no_pods (passed at_plan) false run_post_plan
machine_example = check_set_new_stage_iff no_pods (passed at_plan) 7 run_post_plan
