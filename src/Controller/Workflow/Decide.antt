-- ===== src/Controller/Workflow/Decide.antt =====
-- The choice of the next stage: newStage and checkSetNewStage of pkg/controllers/terraform_controller.go.
use Prim.Native.String
use terraform_operator.Prelude.{
  ℕ, String, Bool, true, false, List, [], ◌==◌, if◌then◌else◌, Option, none, some, nat_beq, not,
  ◌&&◌, has_suffix, to_upper,
}
use terraform_operator.Api.Task.{
  TaskName, run_setup_delete, run_init_delete, run_post_init_delete, run_apply_delete, run_setup,
  run_init, run_post_init, run_apply, run_nil,
}
use terraform_operator.Api.Stage.{
  StatusPhase, deleted, init_delete, deleting, initializing, phase_eq, StageState,
  state_initializing, state_complete, state_failed, state_in_progress, Interruptible,
  can_not_be_interrupt, can_be_interrupt, unix, Stage, bool_eq,
}
use terraform_operator.Api.Resource.{Terraform, TerraformStatus}
use terraform_operator.Controller.Workflow.Tasks.{
  get_configured_tasks, next_task, is_task_interruptable,
}

-- `newStage` also resets the status of the resource. `now` is `time.Now()`.
unfoldable pub new_stage :
    ℕ → Terraform → TaskName → String → Interruptible → StageState → Terraform × Stage
new_stage now tf task_type reason interruptible stage_state =
    let status : TerraformStatus =
      if reason == "GENERATION_CHANGE"
      then record (tf.status) { plugins_started = []; phase = initializing }
      else tf.status in
    (
      record tf { status = status },
      record {
        generation = tf.generation;
        state = stage_state;
        task_type = task_type;
        interruptible = interruptible;
        reason = reason;
        start_time = unix now;
        stop_time = if stage_state == state_complete then unix now else unix 0;
        message = "";
        pod_name = "";
        pod_uid = "";
      },
    )

-- What `Client.Get` of a pod returns: an object, a `NotFound` error, or another error.
pub data PodLookup : Type 0 where
  pod_found pod_not_found pod_error : PodLookup

abbrev pub is_not_found : PodLookup → Bool
is_not_found pod_not_found = true
is_not_found _ = false

-- The variables that `checkSetNewStage` sets; `stay` is `isNewStage == false`, and `nil_panic` the
-- read of a missing retry reason.
pub data Decision : Type 0 where
  stay nil_panic : Decision
  move : (pod_type : TaskName) (reason : String) → Interruptible → StageState → Decision

abbrev pub is_deleting_phase : StatusPhase → Bool
is_deleting_phase deleted = true
is_deleting_phase init_delete = true
is_deleting_phase deleting = true
is_deleting_phase _ = false

unfoldable pub retry_decision : Option String → (restart setup : TaskName) → Decision
retry_decision none restart setup = nil_panic
retry_decision (some reason) restart setup =
    let pod_type = if has_suffix reason ".setup" then setup else restart in
    move pod_type reason (is_task_interruptable pod_type) state_initializing

unfoldable pub completed_decision : TaskName → List TaskName → Decision
completed_decision current configured =
    if current == run_nil
    then stay
    else let pod_type = next_task current configured in
      move pod_type (String.◌++◌ "COMPLETED_" (to_upper current)) (is_task_interruptable pod_type)
        (if pod_type == run_nil then state_complete else state_initializing)

unfoldable pub restart_decision :
    PodLookup → (reason : String) (after : TaskName) → List TaskName → Decision
restart_decision lookup reason after configured =
    let pod_type = next_task after configured in
    if is_not_found lookup
    then move pod_type reason (is_task_interruptable pod_type) state_initializing
    else stay

unfoldable pub failed_decision :
    (String → String → PodLookup) → Terraform → List TaskName → Decision
unfolding restart_decision
failed_decision get_pod tf configured =
    let lookup = get_pod tf.namespace tf.status.stage.pod_name in
    if tf.status.stage.task_type == run_apply
    then restart_decision lookup "RESTARTED_WORKFLOW" run_post_init configured
    else if tf.status.stage.task_type == run_apply_delete
    then restart_decision lookup "RESTARTED_DELETE_WORKFLOW" run_post_init_delete configured
    else stay

unfoldable pub decide : (String → String → PodLookup) → Terraform → Bool → Decision
unfolding retry_decision completed_decision failed_decision
decide get_pod tf is_retry =
    let configured = get_configured_tasks tf.spec.task_options in
    let current = tf.status.stage in
    let deleting_now = is_deleting_phase tf.status.phase in
    let is_new_generation = not (nat_beq current.generation tf.generation) in
    if is_retry && not deleting_now && not is_new_generation
    then retry_decision tf.status.retry_event_reason run_init run_setup
    else if is_retry && deleting_now && not is_new_generation
    then retry_decision tf.status.retry_event_reason run_init_delete run_setup_delete
    else if bool_eq current.interruptible can_not_be_interrupt && current.state == state_in_progress
    then stay
    else if is_new_generation && not deleting_now
    then move run_setup "GENERATION_CHANGE" can_be_interrupt state_initializing
    else if is_new_generation && phase_eq tf.status.phase init_delete
    then move run_setup_delete "TF_RESOURCE_DELETED" can_not_be_interrupt state_initializing
    else if is_new_generation && deleting_now
    then move run_setup_delete "TF_RESOURCE_DELETED" can_be_interrupt state_initializing
    else if current.state == state_complete
    then completed_decision current.task_type configured
    else if current.state == state_failed
    then failed_decision get_pod tf configured
    else stay

-- `checkSetNewStage`: the resource as it leaves it, and the new stage if there is one. `none` is
-- the panic.
pub data Checked : Type 0 where
  panicked : Checked
  checked : Terraform → Option Stage → Checked

unfoldable pub apply_decision : ℕ → Terraform → Decision → Checked
unfolding new_stage
apply_decision now tf stay = checked tf none
apply_decision now tf nil_panic = panicked
apply_decision now tf (move pod_type reason interruptible state) =
    let (tf', stage) = new_stage now tf pod_type reason interruptible state in
    checked tf' (some stage)

unfoldable pub check_set_new_stage : (String → String → PodLookup) → ℕ → Terraform → Bool → Checked
unfolding decide apply_decision
check_set_new_stage get_pod now tf is_retry = apply_decision now tf (decide get_pod tf is_retry)
