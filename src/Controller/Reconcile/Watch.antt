-- ===== src/Controller/Reconcile/Watch.antt =====
-- The pod of a stage, in Reconcile of pkg/controllers/terraform_controller.go.
use terraform_operator.Controller.Reconcile.Marking.{prepare}
use Prim.Native.String
use terraform_operator.Prelude.{
  ℕ, String, Bool, true, false, List, [], ◌∷◌, ◌==◌, if◌then◌else◌, Option, none, some, ◌&&◌, ◌||◌,
  not,
}
use terraform_operator.Api.Task.{run_nil}
use terraform_operator.Api.Stage.{
  initializing, running, init_delete, deleting, phase_eq, StageState, state_initializing,
  state_complete, state_failed, state_in_progress, Time, unix, is_zero, before,
}
use terraform_operator.Api.Resource.{Terraform}
use terraform_operator.Cluster.{Pod, PodPhase, pod_failed, pod_succeeded, other_phase}
use terraform_operator.Controller.Workflow.{PodLookup, check_set_new_stage}
use terraform_operator.Controller.Reconcile.Start.{with_status}
use terraform_operator.Controller.Reconcile.Adopting.{adopt_stage}

abbrev pub made_since : Time → Pod → Bool
made_since start pod = is_zero pod.creation_timestamp || not (before pod.creation_timestamp start)

unfoldable pub filter_pods : Time → List Pod → List Pod
filter_pods start [] = []
filter_pods start (pod ∷ pods) =
    let rest = filter_pods start pods in if made_since start pod then pod ∷ rest else rest

-- The pods of the current attempt.
unfoldable pub current_pods : Option Time → List Pod → List Pod
unfolding filter_pods
current_pods none pods = pods
current_pods (some start) pods = filter_pods start pods

-- The stage's pod is gone.
unfoldable pub lose_pod : Terraform → Terraform
lose_pod tf =
    with_status tf
      (record (tf.status) { stage = record (tf.status.stage) { state = state_initializing } })

-- The pod of the stage was created.
unfoldable pub start_stage : Terraform → Terraform
start_stage tf =
    let phase =
      if phase_eq tf.status.phase initializing
      then running
      else if phase_eq tf.status.phase init_delete
      then deleting
      else tf.status.phase in
    with_status tf (record (tf.status) {
      phase = phase;
      stage = record (tf.status.stage) { state = state_in_progress };
    })

abbrev pub phase_text : PodPhase → String
phase_text pod_failed = "Failed"
phase_text pod_succeeded = "Succeeded"
phase_text (other_phase t) = t

-- The state of a stage whose pod is in the phase: the phase itself, unless the pod is finished.
abbrev pub state_of : PodPhase → StageState
state_of pod_failed = state_failed
state_of pod_succeeded = state_complete
state_of (other_phase t) = t

abbrev pub stop_time_of : ℕ → PodPhase → Time → Time
stop_time_of now pod_failed old = unix now
stop_time_of now pod_succeeded old = unix now
stop_time_of now (other_phase t) old = old

-- The pod of the stage was found.
unfoldable pub observe_pod : ℕ → Pod → Terraform → Terraform
observe_pod now pod tf = with_status tf (record (tf.status) {
  stage = record (tf.status.stage) {
    pod_uid = pod.uid;
    pod_name = pod.meta.name;
    message =
        String.◌++◌ "Pod '" (String.◌++◌ pod.meta.name (String.◌++◌ "' " (phase_text pod.phase)));
    state = state_of pod.phase;
    stop_time = stop_time_of now pod.phase tf.status.stage.stop_time;
  };
})

-- What the reconciles of one stage whose pod ends make of the resource, if nobody else changes it:
-- the pod is created, it is found in its last phase, and, with deletion and retries looked at, the
-- next stage is chosen. The reconciles before find no new stage.
unfoldable pub pass_stage : (String → String → PodLookup) → ℕ → Pod → Terraform → Option Terraform
unfolding observe_pod start_stage adopt_stage prepare
pass_stage get_pod now pod tf =
    let (ready, retry) = prepare now (observe_pod now pod (start_stage tf)) in
    adopt_stage (check_set_new_stage get_pod now ready retry)

-- The reconciles of the stages one after another, until a stage has no task: the pod and the time of
-- each. The code has no such loop; the manager calls `Reconcile` again.
unfoldable pub pass_stages :
    (String → String → PodLookup) → List (ℕ × Pod) → Terraform → Option Terraform
unfolding pass_stage
pass_stages get_pod [] tf = some tf
pass_stages get_pod ((now, pod) ∷ pods) tf = elim (tf.status.stage.task_type == run_nil) [
  | true ↦ some tf
  | false ↦ elim (pass_stage get_pod now pod tf) [
    | none ↦ none
    | some tf' ↦ pass_stages get_pod pods tf'
  ]
]

-- Whether the pod of a finished stage is deleted.
unfoldable pub deletes_pod : Terraform → Pod → Bool
deletes_pod tf pod = elim pod.phase [
  | pod_succeeded ↦ not tf.spec.keep_completed_pods && not tf.spec.keep_latest_pods_only
  | _ ↦ false
]
