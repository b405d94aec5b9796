-- ===== src/Tests/Stages.antt =====
-- The choice of the next stage at concrete inputs.
use terraform_operator.Prelude.{
  String, Bool, true, false, List, [], ◌∷◌, ◌≡◌, ◌⊎◌, inl, refl, arith, some, Memᴰ, ◌<◌,
  if◌then◌else◌, has_suffix, lookup,
}
use terraform_operator.Api.Task.{
  TaskName, run_plan, run_apply, run_setup, run_init, run_setup_delete, run_init_delete, run_nil,
  list_contains_task, id,
}
use terraform_operator.Api.Stage.{
  can_be_interrupt, Stage, state_complete, state_in_progress, state_initializing, running, deleting,
  initializing, unix,
}
use terraform_operator.Api.Resource.{Terraform}
use terraform_operator.Controller.Workflow.{
  is_deleting_phase, new_stage, PodLookup, pod_found, checked, check_set_new_stage, next_task,
  get_configured_tasks, tasks_in_order, move, decide, is_task_interruptable,
}
use terraform_operator.Controller.Workflow.Scan.{IsNext}
use terraform_operator.Controller.Workflow.Orders.{rank}
use terraform_operator.Controller.Workflow.Next.{next_task-IsNext}
use terraform_operator.Controller.Workflow.Stages.{
  check_set_new_stage-fresh, check_set_new_stage-completed,
}
use terraform_operator.Controller.Workflow.Protected.{check_set_new_stage-uninterruptible}
use terraform_operator.Controller.Reconcile.{prepare, change_cause}
use terraform_operator.Controller.Reconcile.Prepare.{decide-retry}
use terraform_operator.Tests.Fixtures.{site, stage_of, plain_spec}

plan_mem : Memᴰ run_plan tasks_in_order
plan_mem = Memᴰ.tail (Memᴰ.tail (Memᴰ.tail (Memᴰ.tail (Memᴰ.tail (Memᴰ.head refl)))))

plan_lt_apply : rank run_plan < rank run_apply
unfolding id
plan_lt_apply = omega arith

abbrev some_tasks : List TaskName
some_tasks = run_setup ∷ run_plan ∷ run_apply ∷ []

next_task_example : IsNext tasks_in_order run_plan some_tasks (next_task run_plan some_tasks)
next_task_example = next_task-IsNext tasks_in_order run_plan some_tasks (inl refl) plan_mem

abbrev no_pods : String → String → PodLookup
no_pods ns n = pod_found

abbrev planning : Terraform
planning = site running (stage_of 1 state_in_progress run_plan)

abbrev outdated : Terraform
outdated = site running (stage_of 1 "Running" run_apply)

abbrev planned : Terraform
planned = site running (stage_of 2 state_complete run_plan)

abbrev asked_again : Terraform
asked_again =
    let tf : Terraform = site running (stage_of 2 state_in_progress run_plan) in
    record tf { status = record (tf.status) { retry_event_reason = some "again.setup" } }

abbrev renewed : Terraform × Stage
renewed = new_stage 7 asked_again run_setup "again.setup" can_be_interrupt state_initializing

asked_again-renewed :
    check_set_new_stage no_pods 7 asked_again true ≡ checked renewed.0 (some renewed.1)
unfolding check_set_new_stage has_suffix is_task_interruptable list_contains_task
asked_again-renewed = refl

uninterruptible_example :
    (◌≡◌ {A = Bool} true true)
    × (asked_again.status.stage.generation ≡ asked_again.generation)
    × ((if is_deleting_phase asked_again.status.phase
        then (renewed.1.task_type ≡ run_setup_delete) ⊎ (renewed.1.task_type ≡ run_init_delete)
        else (renewed.1.task_type ≡ run_setup)
        ⊎ (renewed.1.task_type ≡ run_init)))
uninterruptible_example =
    check_set_new_stage-uninterruptible no_pods asked_again true refl refl 7 asked_again-renewed

completed_example :
    (stage : Stage) × (check_set_new_stage no_pods 7 planned false ≡ checked planned (some stage))
    × IsNext tasks_in_order run_plan (get_configured_tasks plain_spec.task_options) stage.task_type
    × (((stage.task_type ≡ run_nil) × (stage.state ≡ state_complete))
        ⊎ ((list_contains_task (get_configured_tasks plain_spec.task_options) stage.task_type
              ≡ true)
            × (rank run_plan < rank stage.task_type)
            × Memᴰ stage.task_type tasks_in_order
            × (stage.state ≡ state_initializing)))
completed_example =
    check_set_new_stage-completed no_pods 7 planned tasks_in_order (inl refl) plan_mem refl refl

abbrev asked : Terraform
asked = record (site deleting (stage_of 2 "Running" run_plan)) {
  labels = (change_cause, "again.setup") ∷ [];
  deletion_timestamp = some (unix 5);
}

retry_example :
    let task : TaskName = if has_suffix "again.setup" ".setup" then run_setup else run_init in
    ((prepare 7 asked).0.status.phase ≡ initializing)
    × (decide no_pods (prepare 7 asked).0 (prepare 7 asked).1
        ≡ move task "again.setup" (is_task_interruptable task) state_initializing)
unfolding lookup
retry_example = decide-retry 7 asked no_pods "again.setup" refl (λ e. cc) refl

abbrev restarted : Terraform × Stage
restarted = new_stage 7 outdated run_setup "GENERATION_CHANGE" can_be_interrupt state_initializing

outdated-restarted :
    check_set_new_stage no_pods 7 outdated false ≡ checked restarted.0 (some restarted.1)
unfolding check_set_new_stage
outdated-restarted = refl

fresh_example :
    (restarted.1.generation ≡ 2)
    × (restarted.1.start_time ≡ unix 7)
    × (restarted.1.pod_name ≡ "")
    × ((restarted.1.state ≡ state_initializing)
        ⊎ ((restarted.1.state ≡ state_complete) × (restarted.1.task_type ≡ run_nil)))
    × (restarted.0 ≡ record outdated {
      status = record (outdated.status) {
        plugins_started = restarted.0.status.plugins_started;
        phase = restarted.0.status.phase;
      };
    })
fresh_example = check_set_new_stage-fresh no_pods 7 outdated false outdated-restarted
