-- ===== src/Controller/Workflow/Protected.antt =====
-- What replaces a stage that must not be interrupted, in checkSetNewStage of
-- pkg/controllers/terraform_controller.go.
use terraform_operator.Prelude.{ℕ, String, Bool, true, ◌≡◌, arith, eq_iff, some, ◌⊎◌, if◌then◌else◌}
use terraform_operator.Api.Task.{TaskName, run_setup, run_init, run_setup_delete, run_init_delete}
use terraform_operator.Api.Stage.{
  Stage, can_not_be_interrupt, state_in_progress, state_complete, state_failed,
}
use terraform_operator.Api.Resource.{Terraform}
use terraform_operator.Controller.Workflow.Decide.{
  PodLookup, checked, check_set_new_stage, is_deleting_phase,
}
use terraform_operator.Controller.Workflow.Entries.{
  Enters, changed, destroyed, retried, retried_delete, advanced, again, again_delete,
  check_set_new_stage-Enters,
}

module _ (get_pod : String → String → PodLookup) (tf : Terraform) (is_retry : Bool)
    (kept : tf.status.stage.interruptible ≡ can_not_be_interrupt)
    (busy : tf.status.stage.state ≡ state_in_progress) where
  Enters-protected :
      (t : TaskName)
      → Enters get_pod tf is_retry t
      → (is_retry ≡ true)
        × (tf.status.stage.generation ≡ tf.generation)
        × ((if is_deleting_phase tf.status.phase
            then (t ≡ run_setup_delete) ⊎ (t ≡ run_init_delete)
            else (t ≡ run_setup)
            ⊎ (t ≡ run_init)))
  Enters-protected t (changed n d p e) =
      absurd (ground (arith, eq_iff tf.status.stage.state state_in_progress))
  Enters-protected t (destroyed n d p e) =
      absurd (ground (arith, eq_iff tf.status.stage.state state_in_progress))
  Enters-protected t (retried n d r e) = (r, n, rw d e)
  Enters-protected t (retried_delete n d r e) = (r, n, rw d e)
  Enters-protected t (advanced n c k e) =
      absurd (ground (arith, eq_iff state_complete state_in_progress))
  Enters-protected t (again n f k gone e) =
      absurd (ground (arith, eq_iff state_failed state_in_progress))
  Enters-protected t (again_delete n f k gone e) =
      absurd (ground (arith, eq_iff state_failed state_in_progress))

  -- If a stage that must not be interrupted and is in progress is replaced by another, it is for a
  -- retry, the resource has not changed since the stage began, and the new stage is a setup or an
  -- init task: of the delete workflow if the resource is being deleted, else of the create one.
  pub check_set_new_stage-uninterruptible :
      (now : ℕ) {tf' : Terraform} {stage : Stage}
      → check_set_new_stage get_pod now tf is_retry ≡ checked tf' (some stage)
      → (is_retry ≡ true)
        × (tf.status.stage.generation ≡ tf.generation)
        × ((if is_deleting_phase tf.status.phase
            then (stage.task_type ≡ run_setup_delete) ⊎ (stage.task_type ≡ run_init_delete)
            else (stage.task_type ≡ run_setup)
            ⊎ (stage.task_type ≡ run_init)))
  check_set_new_stage-uninterruptible now {tf'} {stage} h =
      Enters-protected stage.task_type (check_set_new_stage-Enters get_pod tf now is_retry h).0
