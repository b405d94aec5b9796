-- ===== src/Controller/Workflow/Branches.antt =====
-- The branches of checkSetNewStage of pkg/controllers/terraform_controller.go, one at a time.
use terraform_operator.Prelude.{
  String, Bool, true, false, List, ◌≡◌, ◌≢◌, arith, eq_iff, some, none, ◌⊎◌, if◌then◌else◌, ◌&&◌,
  not, Option,
}
use terraform_operator.Api.Task.{
  TaskName, run_nil, run_post_init, run_apply, run_post_init_delete, run_apply_delete,
}
use terraform_operator.Api.Stage.{StageState, Interruptible}
use terraform_operator.Api.Resource.{Terraform}
use terraform_operator.Controller.Workflow.Tasks.{next_task}
use terraform_operator.Controller.Workflow.Decide.{
  PodLookup, pod_not_found, Decision, stay, move, retry_decision, completed_decision,
  failed_decision, restart_decision,
}

pub retry-inv :
    (cause : Option String) (restart setup : TaskName) {t : TaskName} {reason : String}
    {i : Interruptible} {state : StageState}
    → retry_decision cause restart setup ≡ move t reason i state
    → (t ≡ setup) ⊎ (t ≡ restart)
unfolding retry_decision
retry-inv none restart setup h = ground arith
retry-inv (some cause) restart setup h = ground arith

pub restart-inv :
    (lookup : PodLookup) (cause : String) (after : TaskName) (configured : List TaskName)
    {t : TaskName} {reason : String} {i : Interruptible} {state : StageState}
    → restart_decision lookup cause after configured ≡ move t reason i state
    → (lookup ≡ pod_not_found) × (t ≡ next_task after configured)
unfolding restart_decision
restart-inv lookup cause after configured h = ground arith

pub completed-inv :
    (current : TaskName) (configured : List TaskName) {t : TaskName} {reason : String}
    {i : Interruptible} {state : StageState}
    → completed_decision current configured ≡ move t reason i state
    → (current ≢ run_nil) × (t ≡ next_task current configured)
unfolding completed_decision
completed-inv current configured h = ground (arith, eq_iff current run_nil)

pub failed-inv :
    (get_pod : String → String → PodLookup) (tf : Terraform) (configured : List TaskName)
    {t : TaskName} {reason : String} {i : Interruptible} {state : StageState}
    → failed_decision get_pod tf configured ≡ move t reason i state
    → (get_pod tf.namespace tf.status.stage.pod_name ≡ pod_not_found)
      × (((tf.status.stage.task_type ≡ run_apply) × (t ≡ next_task run_post_init configured))
          ⊎ ((tf.status.stage.task_type ≡ run_apply_delete)
              × (t ≡ next_task run_post_init_delete configured)))
unfolding failed_decision restart_decision
failed-inv get_pod tf configured h = ground (
  arith,
  eq_iff tf.status.stage.task_type run_apply,
  eq_iff tf.status.stage.task_type run_apply_delete,
)

pub stay_only :
    {t : TaskName} {reason : String} {i : Interruptible} {state : StageState}
    → ◌≡◌ {A = Decision} stay (move t reason i state)
    → ⊥
stay_only h = ground arith

-- The branches of `decide`, for any tests and any results.
pub branches :
    (retry deleting is_new protected init done broken : Bool) (a b c d e f g z : Decision)
    → (if retry && not deleting && not is_new
        then a
        else if retry && deleting && not is_new
        then b
        else if protected
        then stay
        else if is_new && not deleting
        then c
        else if is_new && init
        then d
        else if is_new && deleting
        then e
        else if done
        then f
        else if broken
        then g
        else stay)
      ≡ z
    → (stay ≡ z)
      ⊎ (((is_new ≡ false) × (retry ≡ true) × (deleting ≡ false) × (a ≡ z))
          ⊎ (((is_new ≡ false) × (retry ≡ true) × (deleting ≡ true) × (b ≡ z))
              ⊎ (((is_new ≡ true) × (protected ≡ false) × (deleting ≡ false) × (c ≡ z))
                  ⊎ (((is_new ≡ true) × (protected ≡ false) × (init ≡ true) × (d ≡ z))
                      ⊎ (((is_new ≡ true) × (protected ≡ false) × (deleting ≡ true) × (e ≡ z))
                          ⊎ (((is_new ≡ false) × (done ≡ true) × (f ≡ z))
                              ⊎ ((is_new ≡ false) × (broken ≡ true) × (g ≡ z))))))))
branches retry deleting is_new protected init done broken a b c d e f g z h = ground arith
