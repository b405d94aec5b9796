-- ===== src/Controller/Workflow/Entries.antt =====
-- Why a stage is entered: an account of checkSetNewStage of pkg/controllers/terraform_controller.go
-- that does not depend on the order of its branches.
use Prim.Native.String
use terraform_operator.Prelude.{
  to_upper, subst, ◌↔◌, String, Bool, true, false, List, ◌≡◌, ◌≢◌, refl, sym, ap, ◌∙◌, arith,
  eq_iff, some, ◌⊎◌, inl, inr, ◌==◌, if◌then◌else◌, nat_beq, ◌&&◌, not, ℕ,
}
use terraform_operator.Api.Task.{
  TaskName, run_nil, run_setup, run_init, run_post_init, run_apply, run_setup_delete,
  run_init_delete, run_post_init_delete, run_apply_delete,
}
use terraform_operator.Api.Stage.{
  state_initializing, can_be_interrupt, init_delete, phase_eq, Stage, StageState, Interruptible,
  state_in_progress, state_complete, state_failed, can_not_be_interrupt, bool_eq,
}
use terraform_operator.Api.Resource.{Terraform}
use terraform_operator.Controller.Workflow.Tasks.{
  is_task_interruptable, next_task, get_configured_tasks,
}
use terraform_operator.Controller.Workflow.Stages.{decide-completed, apply_decision-fresh}
use terraform_operator.Controller.Workflow.Decide.{
  apply_decision, checked, new_stage, check_set_new_stage, PodLookup, pod_not_found, move, decide,
  is_deleting_phase, failed_decision, restart_decision,
}
use terraform_operator.Controller.Workflow.Branches.{
  retry-inv, completed-inv, failed-inv, stay_only, branches,
}

-- The stage must not be interrupted, and it is in progress.
abbrev pub is_protected : Stage → Bool
is_protected s = bool_eq s.interruptible can_not_be_interrupt && s.state == state_in_progress

-- The reasons for which a resource enters a task.
pub data Enters (get_pod : String → String → PodLookup) (tf : Terraform) (is_retry : Bool)
    (t : TaskName) : Type 0 where
  changed :
      tf.status.stage.generation ≢ tf.generation
      → is_deleting_phase tf.status.phase ≡ false
      → is_protected tf.status.stage ≡ false
      → t ≡ run_setup
      → Enters get_pod tf is_retry t
  destroyed :
      tf.status.stage.generation ≢ tf.generation
      → is_deleting_phase tf.status.phase ≡ true
      → is_protected tf.status.stage ≡ false
      → t ≡ run_setup_delete
      → Enters get_pod tf is_retry t
  retried :
      tf.status.stage.generation ≡ tf.generation
      → is_deleting_phase tf.status.phase ≡ false
      → is_retry ≡ true
      → (t ≡ run_setup) ⊎ (t ≡ run_init)
      → Enters get_pod tf is_retry t
  retried_delete :
      tf.status.stage.generation ≡ tf.generation
      → is_deleting_phase tf.status.phase ≡ true
      → is_retry ≡ true
      → (t ≡ run_setup_delete) ⊎ (t ≡ run_init_delete)
      → Enters get_pod tf is_retry t
  advanced :
      tf.status.stage.generation ≡ tf.generation
      → tf.status.stage.state ≡ state_complete
      → tf.status.stage.task_type ≢ run_nil
      → t ≡ next_task tf.status.stage.task_type (get_configured_tasks tf.spec.task_options)
      → Enters get_pod tf is_retry t
  again :
      tf.status.stage.generation ≡ tf.generation
      → tf.status.stage.state ≡ state_failed
      → tf.status.stage.task_type ≡ run_apply
      → get_pod tf.namespace tf.status.stage.pod_name ≡ pod_not_found
      → t ≡ next_task run_post_init (get_configured_tasks tf.spec.task_options)
      → Enters get_pod tf is_retry t
  again_delete :
      tf.status.stage.generation ≡ tf.generation
      → tf.status.stage.state ≡ state_failed
      → tf.status.stage.task_type ≡ run_apply_delete
      → get_pod tf.namespace tf.status.stage.pod_name ≡ pod_not_found
      → t ≡ next_task run_post_init_delete (get_configured_tasks tf.spec.task_options)
      → Enters get_pod tf is_retry t

module _ (get_pod : String → String → PodLookup) (tf : Terraform) (is_retry : Bool) (t : TaskName)
    (reason : String) (i : Interruptible) (state : StageState) where
  decide-Enters : decide get_pod tf is_retry ≡ move t reason i state → Enters get_pod tf is_retry t
  unfolding decide
  decide-Enters h =
      let current = tf.status.stage in
      let deleting_now = is_deleting_phase tf.status.phase in
      let is_new = not (nat_beq current.generation tf.generation) in
      let conf = get_configured_tasks tf.spec.task_options in
      let same : is_new ≡ false → current.generation ≡ tf.generation = λ b. ground arith in
      let other : is_new ≡ true → current.generation ≢ tf.generation = λ b q. ground arith in
      elim (branches is_retry deleting_now is_new (is_protected current)
        (phase_eq tf.status.phase init_delete) (current.state == state_complete)
        (current.state == state_failed) _ _ _ _ _ _ _ _ h) [
          | inl stays ↦ absurd (stay_only stays)
          | inr (inl (n, r, d, e)) ↦
              retried (same n) d r (retry-inv tf.status.retry_event_reason run_init run_setup e)
          | inr (inr (inl (n, r, d, e))) ↦
              retried_delete (same n) d r
                (retry-inv tf.status.retry_event_reason run_init_delete run_setup_delete e)
          | inr (inr (inr (inl (n, p, d, e)))) ↦ changed (other n) d p (ground arith)
          | inr (inr (inr (inr (inl (n, p, d, e))))) ↦
              destroyed (other n) (ground arith) p (ground arith)
          | inr (inr (inr (inr (inr (inl (n, p, d, e)))))) ↦ destroyed (other n) d p (ground arith)
          | inr (inr (inr (inr (inr (inr (inl (n, c, e))))))) ↦
              let (ne, next) = completed-inv current.task_type conf e in
              advanced (same n) ((eq_iff current.state state_complete).0 c) ne next
          | inr (inr (inr (inr (inr (inr (inr (n, f, e))))))) ↦
              let (gone, which) = failed-inv get_pod tf conf e in
              elim which [
                | inl (task, next) ↦
                    again (same n) ((eq_iff current.state state_failed).0 f) task gone next
                | inr (task, next) ↦
                    again_delete (same n) ((eq_iff current.state state_failed).0 f) task gone next
              ]
        ]

module _ (get_pod : String → String → PodLookup) (tf : Terraform) where
  decide-failed :
      tf.status.stage.generation ≡ tf.generation
      → tf.status.stage.state ≡ state_failed
      → decide get_pod tf false
        ≡ failed_decision get_pod tf (get_configured_tasks tf.spec.task_options)
  unfolding decide
  decide-failed n f = ground (
    arith,
    eq_iff tf.status.stage.state state_failed,
    eq_iff tf.status.stage.state state_complete,
    eq_iff tf.status.stage.state state_in_progress,
    eq_iff state_failed state_in_progress,
    eq_iff state_failed state_complete,
  )

  restarts :
      (reason : String) (after t : TaskName) (configured : List TaskName)
      → get_pod tf.namespace tf.status.stage.pod_name ≡ pod_not_found
      → t ≡ next_task after configured
      → restart_decision (get_pod tf.namespace tf.status.stage.pod_name) reason after configured
        ≡ move t reason (is_task_interruptable t) state_initializing
  unfolding restart_decision
  restarts reason after t configured gone e = rw (gone, e) refl

  Enters-decide :
      (t : TaskName)
      → Enters get_pod tf false t
      → (reason : String) × (i : Interruptible) × (state : StageState) × (decide get_pod tf false
          ≡ move t reason i state)
  unfolding decide failed_decision
  Enters-decide t (changed n d p e) =
      ("GENERATION_CHANGE", can_be_interrupt, state_initializing, ground arith)
  Enters-decide t (destroyed n d p e) = (
    "TF_RESOURCE_DELETED",
    (if phase_eq tf.status.phase init_delete then can_not_be_interrupt else can_be_interrupt),
    state_initializing,
    ground arith,
  )
  Enters-decide t (retried n d r e) = absurd (ground arith)
  Enters-decide t (retried_delete n d r e) = absurd (ground arith)
  Enters-decide t (advanced n c k e) =
      let next = next_task tf.status.stage.task_type (get_configured_tasks tf.spec.task_options) in
      let reason = String.◌++◌ "COMPLETED_" (to_upper tf.status.stage.task_type) in
      let state : StageState = if next == run_nil then state_complete else state_initializing in
      (
        reason,
        is_task_interruptable next,
        state,
        decide-completed get_pod 0 tf k n c
            ∙ ap (λ u. move u reason (is_task_interruptable next) state) (sym e),
      )
  Enters-decide t (again n f k gone e) = (
    "RESTARTED_WORKFLOW",
    is_task_interruptable t,
    state_initializing,
    decide-failed n f
        ∙ ground (
          arith,
          eq_iff tf.status.stage.task_type run_apply,
          eq_iff tf.status.stage.task_type run_apply_delete,
          eq_iff run_apply run_apply_delete,
          restarts "RESTARTED_WORKFLOW" run_post_init t (get_configured_tasks tf.spec.task_options)
              gone e,
        ),
  )
  Enters-decide t (again_delete n f k gone e) = (
    "RESTARTED_DELETE_WORKFLOW",
    is_task_interruptable t,
    state_initializing,
    decide-failed n f
        ∙ ground (
          arith,
          eq_iff tf.status.stage.task_type run_apply,
          eq_iff tf.status.stage.task_type run_apply_delete,
          eq_iff run_apply run_apply_delete,
          restarts "RESTARTED_DELETE_WORKFLOW" run_post_init_delete t
              (get_configured_tasks tf.spec.task_options) gone e,
        ),
  )

  -- What `checkSetNewStage` finds is what the reasons allow, for a retry too.
  pub check_set_new_stage-Enters :
      (now : ℕ) (is_retry : Bool) {tf' : Terraform} {stage : Stage}
      → check_set_new_stage get_pod now tf is_retry ≡ checked tf' (some stage)
      → Enters get_pod tf is_retry stage.task_type × (stage.generation ≡ tf.generation)
  unfolding check_set_new_stage new_stage
  check_set_new_stage-Enters now is_retry h =
      let (t, reason, i, state, d, same, made) =
        apply_decision-fresh get_pod now tf (decide get_pod tf is_retry) h in
      rw made (decide-Enters get_pod tf is_retry t reason i state d, refl)

  -- Without a retry, `checkSetNewStage` implements the machine of `Enters`: it finds a new stage for
  -- a task if and only if the machine enters that task, which is for a change of an unprotected
  -- stage's resource, for its deletion, after a completed task, or behind the init tasks after a
  -- failed apply task whose pod is gone.
  pub check_set_new_stage_iff :
      (now : ℕ) (t : TaskName)
      → ((tf' : Terraform) × (stage : Stage) × (check_set_new_stage get_pod now tf false
            ≡ checked tf' (some stage))
          × (stage.task_type ≡ t))
        ↔ Enters get_pod tf false t
  unfolding check_set_new_stage new_stage
  check_set_new_stage_iff now t = (
    λ (tf', stage, h, e).
        subst (Enters get_pod tf false) e (check_set_new_stage-Enters now false h).0,
    λ h.
        let (reason, i, state, d) = Enters-decide t h in
        (
          (new_stage now tf t reason i state).0,
          (new_stage now tf t reason i state).1,
          ap (apply_decision now tf) d,
          refl,
        ),
  )
