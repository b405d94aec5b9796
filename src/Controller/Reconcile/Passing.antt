-- ===== src/Controller/Reconcile/Passing.antt =====
-- What one stage whose pod succeeds comes to.
use terraform_operator.Controller.Reconcile.Marking.{
  prepare, mark_deletion, detect_retry, retry_with, change_cause, in_delete_phase,
}
use Prim.Native.String
use terraform_operator.Controller.Reconcile.Start.{with_status}
use terraform_operator.Controller.Reconcile.Adopting.{adopt_stage}
use terraform_operator.Controller.Reconcile.Watch.{start_stage, observe_pod, pass_stage}
use terraform_operator.Prelude.{
  true, Bool, none, inl, inr, ◌⊎◌, lookup, arith, ℕ, String, false, ◌≡◌, ◌≢◌, refl, ap, ◌∙◌, some,
  to_upper, ◌==◌, if◌then◌else◌,
}
use terraform_operator.Api.Task.{run_nil}
use terraform_operator.Api.Stage.{running, deleting, StageState, state_complete, state_initializing}
use terraform_operator.Api.Resource.{Terraform}
use terraform_operator.Cluster.{Pod, pod_succeeded}
use terraform_operator.Controller.Workflow.{
  PodLookup, next_task, get_configured_tasks, check_set_new_stage, checked, new_stage,
  apply_decision, is_task_interruptable,
}
use terraform_operator.Controller.Workflow.Stages.{
  completed_reason, new_stage-keeps, decide-completed,
}
use terraform_operator.Controller.Reconcile.Start.{with_status}
use terraform_operator.Controller.Reconcile.Adopting.{adopt_stage}
use terraform_operator.Controller.Reconcile.Watch.{start_stage, observe_pod, pass_stage}

-- No retry is asked for, and the resource is not to be deleted, or its deletion is under way.
pub record IsSteady (tf : Terraform) : Type 0 where
  pub no_retry : lookup change_cause tf.labels ≡ none
  pub no_deletion : (tf.deletion_timestamp ≡ none) ⊎ (in_delete_phase tf.status.phase ≡ true)

pub prepare-steady : (now : ℕ) (tf : Terraform) → IsSteady tf → prepare now tf ≡ (tf, false)
unfolding prepare mark_deletion detect_retry retry_with
prepare-steady now tf q = elim q.no_deletion [
  | inl d ↦ ground (arith, q.no_retry)
  | inr d ↦ ground (arith, q.no_retry)
]

start_stage-IsSteady : (tf : Terraform) → IsSteady tf → IsSteady (start_stage tf)
unfolding start_stage
start_stage-IsSteady tf q = elim q.no_deletion [
  | inl d ↦ record { no_retry = q.no_retry; no_deletion = inl d }
  | inr d ↦ record { no_retry = q.no_retry; no_deletion = inr (ground arith) }
]

-- How a resource stands after a stage of which the pod succeeded.
pub record Passed (tf tf' : Terraform) : Type 0 where
  pub task_type :
      tf'.status.stage.task_type
      ≡ next_task tf.status.stage.task_type (get_configured_tasks tf.spec.task_options)
  pub generation : tf'.status.stage.generation ≡ tf'.generation
  pub spec : tf'.spec ≡ tf.spec
  pub phase : tf'.status.phase ≡ (start_stage tf).status.phase
  pub steady : IsSteady tf'

module _ (get_pod : String → String → PodLookup) where
  pub check-completed :
      (now : ℕ) (tf : Terraform)
      → tf.status.stage.task_type ≢ run_nil
      → tf.status.stage.generation ≡ tf.generation
      → tf.status.stage.state ≡ state_complete
      → let next =
          next_task tf.status.stage.task_type (get_configured_tasks tf.spec.task_options) in
        let reason = String.◌++◌ "COMPLETED_" (to_upper tf.status.stage.task_type) in
        let state : StageState = if next == run_nil then state_complete else state_initializing in
        check_set_new_stage get_pod now tf false
        ≡ checked tf (some ((new_stage now tf next reason (is_task_interruptable next) state).1))
  unfolding check_set_new_stage
  check-completed now tf t g c =
      let next = next_task tf.status.stage.task_type (get_configured_tasks tf.spec.task_options) in
      let reason = String.◌++◌ "COMPLETED_" (to_upper tf.status.stage.task_type) in
      let state : StageState = if next == run_nil then state_complete else state_initializing in
      ap (apply_decision now tf) (decide-completed get_pod now tf t g c)
      ∙ ap
          (λ u.
            checked u (some ((new_stage now tf next reason (is_task_interruptable next) state).1)))
          (new_stage-keeps get_pod now tf next reason (is_task_interruptable next) state
            (completed_reason (to_upper tf.status.stage.task_type)))

  pub pass_stage-Passed :
      (now : ℕ) (pod : Pod) (tf : Terraform)
      → pod.phase ≡ pod_succeeded
      → tf.status.stage.task_type ≢ run_nil
      → tf.status.stage.generation ≡ tf.generation
      → IsSteady tf
      → (tf' : Terraform) × (pass_stage get_pod now pod tf ≡ some tf') × Passed tf tf'
  unfolding pass_stage observe_pod start_stage new_stage
  pass_stage-Passed now pod tf p t g q =
      let started = start_stage-IsSteady tf q in
      let seen = observe_pod now pod (start_stage tf) in
      let next = next_task tf.status.stage.task_type (get_configured_tasks tf.spec.task_options) in
      let reason = String.◌++◌ "COMPLETED_" (to_upper tf.status.stage.task_type) in
      let state : StageState = if next == run_nil then state_complete else state_initializing in
      let stage = (new_stage now seen next reason (is_task_interruptable next) state).1 in
      (
        with_status seen (record (seen.status) { stage = stage }),
        ap (λ (x : Terraform × Bool). adopt_stage (check_set_new_stage get_pod now x.0 x.1))
              (prepare-steady now seen
                (record { no_retry = started.no_retry; no_deletion = started.no_deletion }))
            ∙ ap adopt_stage (check-completed now seen t g (rw p)),
        record {
          task_type = refl;
          generation = refl;
          spec = refl;
          phase = refl;
          steady = record { no_retry = started.no_retry; no_deletion = started.no_deletion };
        },
      )

pub start_stage-running :
    (tf : Terraform) → tf.status.phase ≡ running → (start_stage tf).status.phase ≡ running
unfolding start_stage
start_stage-running tf h = ground arith

pub start_stage-deleting :
    (tf : Terraform) → tf.status.phase ≡ deleting → (start_stage tf).status.phase ≡ deleting
unfolding start_stage
start_stage-deleting tf h = ground arith
