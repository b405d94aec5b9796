-- ===== src/Controller/Workflow/Stages.antt =====
-- What a new stage is: the results of checkSetNewStage.
use Prim.Native.String
use text.Mathlib.TextLemmas.{cons-append, head-eq_of_cons-eq}
use terraform_operator.Prelude.{
  Bool-cases, ℕ, String, Char, code, Bool, true, false, List, [], ◌≡◌, ◌≢◌, refl, sym, ap, ◌∙◌,
  arith, eq_iff, some, none, ◌⊎◌, inl, inr, Memᴰ, ◌<◌, ◌==◌, if◌then◌else◌, to_upper, text_cases,
}
use terraform_operator.Api.Task.{TaskName, list_contains_task, run_nil, run_setup}
use terraform_operator.Api.Stage.{
  state_in_progress, state_complete, state_failed, state_initializing, can_be_interrupt,
  initializing, Stage, StageState, Interruptible, unix,
}
use terraform_operator.Api.Resource.{Terraform}
use terraform_operator.Controller.Workflow.Tasks.{
  next_task, get_configured_tasks, is_task_interruptable,
}
use terraform_operator.Controller.Workflow.Decide.{
  PodLookup, Decision, stay, nil_panic, move, checked, decide, new_stage, check_set_new_stage,
  is_deleting_phase, apply_decision,
}
use terraform_operator.Controller.Workflow.Orders.{IsWorkflow, workflow-ne-nil, rank}
use terraform_operator.Controller.Workflow.Next.{next_task-ascends, next_task-IsNext}
use terraform_operator.Controller.Workflow.Scan.{IsNext}

-- The reason of a stage that follows a completed one is none that the controller looks for.
pub completed_reason : (x : String) → (String.◌++◌ "COMPLETED_" x == "GENERATION_CHANGE") ≡ false
completed_reason x = elim (text_cases (String.◌++◌ "COMPLETED_" x) "GENERATION_CHANGE") [
  | inl (p, _) ↦
      let heads : ◌≡◌ {A = Char} "C" "G" =
        head-eq_of_cons-eq (sym (cons-append "C" "OMPLETED_" x) ∙ p) in
      let codes : ◌≡◌ {A = ℕ} 67 71 = ap code heads in absurd (omega arith)
  | inr (_, e) ↦ e
]

module _ (get_pod : String → String → PodLookup) (now : ℕ) (tf : Terraform) where
  -- A stage of the current generation stays until its state is complete or failed.
  pub check_set_new_stage-unfinished :
      tf.status.stage.generation ≡ tf.generation
      → tf.status.stage.state ≢ state_complete
      → tf.status.stage.state ≢ state_failed
      → check_set_new_stage get_pod now tf false ≡ checked tf none
  unfolding check_set_new_stage
  check_set_new_stage-unfinished g c f = ground (
    arith,
    eq_iff tf.status.stage.state state_complete,
    eq_iff tf.status.stage.state state_failed,
  )

  -- A changed resource that is not being deleted starts over at the setup task, with the plugins
  -- to be started again, unless the stage is uninterruptible and its state is in-progress: the
  -- state that a pod's own phase has been copied to, such as `Running`, protects no stage.
  pub check_set_new_stage-new_generation :
      tf.status.stage.generation ≢ tf.generation
      → is_deleting_phase tf.status.phase ≡ false
      → tf.status.stage.state ≢ state_in_progress
      → (stage : Stage) × (tf' : Terraform) × (check_set_new_stage get_pod now tf false
          ≡ checked tf' (some stage))
        × (stage.task_type ≡ run_setup)
        × (stage.state ≡ state_initializing)
        × (stage.generation ≡ tf.generation)
        × (tf'.status.plugins_started ≡ [])
        × (tf'.status.phase ≡ initializing)
  unfolding check_set_new_stage new_stage
  check_set_new_stage-new_generation g p s = (
    (new_stage now tf run_setup "GENERATION_CHANGE" can_be_interrupt state_initializing).1,
    (new_stage now tf run_setup "GENERATION_CHANGE" can_be_interrupt state_initializing).0,
    ground (arith, eq_iff tf.status.stage.state state_in_progress),
    refl,
    refl,
    refl,
    refl,
    refl,
  )

  decide_state :
      (is_retry : Bool) {t : TaskName} {reason : String} {i : Interruptible} {state : StageState}
      → decide get_pod tf is_retry ≡ move t reason i state
      → (state ≡ state_initializing) ⊎ ((state ≡ state_complete) × (t ≡ run_nil))
  unfolding decide
  decide_state is_retry h = ground (
    arith,
    eq_iff (next_task tf.status.stage.task_type (get_configured_tasks tf.spec.task_options))
        run_nil,
  )

  pub apply_decision-fresh :
      (d : Decision) {tf' : Terraform} {stage : Stage}
      → apply_decision now tf d ≡ checked tf' (some stage)
      → (t : TaskName) × (reason : String) × (i : Interruptible) × (state : StageState) × (d
          ≡ move t reason i state)
        × (tf' ≡ (new_stage now tf t reason i state).0)
        × (stage ≡ (new_stage now tf t reason i state).1)
  unfolding apply_decision
  apply_decision-fresh stay h = ground arith
  apply_decision-fresh nil_panic h = ground arith
  apply_decision-fresh (move t reason i state) h =
      (t, reason, i, state, refl, ground arith, ground arith)

  new_stage-rest :
      (t : TaskName) (reason : String) (i : Interruptible) (state : StageState)
      → let tf' : Terraform = (new_stage now tf t reason i state).0 in
        tf' ≡ record tf {
          status = record (tf.status) {
            plugins_started = tf'.status.plugins_started;
            phase = tf'.status.phase;
          };
        }
  unfolding new_stage
  new_stage-rest t reason i state = elim (Bool-cases (reason == "GENERATION_CHANGE")) [
    | inl e ↦ rw e refl
    | inr e ↦ rw e refl
  ]

  -- Every new stage is of the resource's generation and has no pod; it starts now, and it is
  -- finished only if there is no task left. The resource keeps everything but its status, and of
  -- the status everything but its phase and the plugins that were started.
  pub check_set_new_stage-fresh :
      (is_retry : Bool) {tf' : Terraform} {stage : Stage}
      → check_set_new_stage get_pod now tf is_retry ≡ checked tf' (some stage)
      → (stage.generation ≡ tf.generation)
        × (stage.start_time ≡ unix now)
        × (stage.pod_name ≡ "")
        × ((stage.state ≡ state_initializing)
            ⊎ ((stage.state ≡ state_complete) × (stage.task_type ≡ run_nil)))
        × (tf' ≡ record tf {
          status = record (tf.status) {
            plugins_started = tf'.status.plugins_started;
            phase = tf'.status.phase;
          };
        })
  unfolding check_set_new_stage new_stage
  check_set_new_stage-fresh is_retry h =
      let (t, reason, i, state, d, same, made) =
        apply_decision-fresh (decide get_pod tf is_retry) h in
      let ends = decide_state is_retry d in
      rw (same, made) (refl, refl, refl, ends, new_stage-rest t reason i state)

  pub new_stage-keeps :
      (t : TaskName) (reason : String) (i : Interruptible) (state : StageState)
      → (reason == "GENERATION_CHANGE") ≡ false
      → (new_stage now tf t reason i state).0 ≡ tf
  unfolding new_stage
  new_stage-keeps t reason i state e = rw e

  -- A completed stage of a task is followed by what `nextTask` answers.
  pub decide-completed :
      tf.status.stage.task_type ≢ run_nil
      → tf.status.stage.generation ≡ tf.generation
      → tf.status.stage.state ≡ state_complete
      → let next =
          next_task tf.status.stage.task_type (get_configured_tasks tf.spec.task_options) in
        decide get_pod tf false
        ≡ move next
            (String.◌++◌ "COMPLETED_" (to_upper tf.status.stage.task_type))
            (is_task_interruptable next)
            (if next == run_nil then state_complete else state_initializing)
  unfolding decide
  decide-completed n g c = ground (
    arith,
    eq_iff tf.status.stage.state state_complete,
    eq_iff tf.status.stage.state state_in_progress,
    eq_iff state_complete state_in_progress,
    eq_iff tf.status.stage.task_type run_nil,
  )

  -- Without a retry, a completed stage of the current generation is followed by the first
  -- configured task behind its own in the order of its workflow, whose id is higher, in the state
  -- initializing; if no task behind it is configured, by the empty task in the state complete,
  -- which ends the workflow. The resource itself stays as it is.
  pub check_set_new_stage-completed :
      (order : List TaskName)
      → IsWorkflow order
      → Memᴰ tf.status.stage.task_type order
      → tf.status.stage.generation ≡ tf.generation
      → tf.status.stage.state ≡ state_complete
      → (stage : Stage) × (check_set_new_stage get_pod now tf false ≡ checked tf (some stage))
        × IsNext order tf.status.stage.task_type
            (get_configured_tasks tf.spec.task_options)
            stage.task_type
        × (((stage.task_type ≡ run_nil) × (stage.state ≡ state_complete))
            ⊎ ((list_contains_task (get_configured_tasks tf.spec.task_options) stage.task_type
                  ≡ true)
                × (rank tf.status.stage.task_type < rank stage.task_type)
                × Memᴰ stage.task_type order
                × (stage.state ≡ state_initializing)))
  unfolding check_set_new_stage new_stage
  check_set_new_stage-completed order w m g c =
      let next = next_task tf.status.stage.task_type (get_configured_tasks tf.spec.task_options) in
      let reason = String.◌++◌ "COMPLETED_" (to_upper tf.status.stage.task_type) in
      let state : StageState = if next == run_nil then state_complete else state_initializing in
      let made = new_stage now tf next reason (is_task_interruptable next) state in
      let kept =
        new_stage-keeps next reason (is_task_interruptable next) state
          (completed_reason (to_upper tf.status.stage.task_type)) in
      let decided = decide-completed (workflow-ne-nil order w m) g c in
      (
        made.1,
        ap (apply_decision now tf) decided ∙ ap (λ t. checked t (some made.1)) kept,
        next_task-IsNext order tf.status.stage.task_type (get_configured_tasks tf.spec.task_options)
            w m,
        elim (next_task-ascends order tf.status.stage.task_type
            (get_configured_tasks tf.spec.task_options) w m) [
              | inl nil ↦ inl (nil, ground (arith, nil, eq_iff next run_nil))
              | inr (found, higher, later) ↦ inr (
                found,
                higher,
                later,
                ground (arith, eq_iff next run_nil, workflow-ne-nil order w later),
              )
            ],
      )
