-- ===== src/Controller/Reconcile/Histories.antt =====
-- The stages of a resource as Reconcile of pkg/controllers/terraform_controller.go makes them, one
-- step after another.
use terraform_operator.Prelude.{
  sym, ℕ, String, Bool, List, [], ◌∷◌, ◌≡◌, refl, ◌∙◌, some, inl, inr, Memᴰ, ◌<◌,
}
use terraform_operator.Api.Task.{list_contains_task, TaskName}
use terraform_operator.Api.Stage.{Stage, state_complete}
use terraform_operator.Api.Resource.{Terraform}
use terraform_operator.Cluster.{Pod}
use terraform_operator.Controller.Workflow.{new_stage, PodLookup, check_set_new_stage, checked}
use terraform_operator.Controller.Workflow.Orders.{rank}
use terraform_operator.Controller.Workflow.Entries.{check_set_new_stage-Enters}
use terraform_operator.Controller.Workflow.Gates.{Gate}
use terraform_operator.Controller.Workflow.Behind.{Enters-behind, not_start}
use terraform_operator.Controller.Reconcile.Start.{first_stage}
use terraform_operator.Controller.Reconcile.Watch.{start_stage, lose_pod, observe_pod}

-- The stages that a resource has passed through, the last first. Between the steps anybody may
-- change its spec, labels, generation and phase, and the pods and the time are any.
pub data History : List Stage → Type 0 where
  created : (now : ℕ) (tf : Terraform) → History ((first_stage now tf).status.stage ∷ [])
  started :
      (tf : Terraform) {stages : List Stage}
      → History (tf.status.stage ∷ stages)
      → History ((start_stage tf).status.stage ∷ stages)
  lost :
      (tf : Terraform) {stages : List Stage}
      → History (tf.status.stage ∷ stages)
      → History ((lose_pod tf).status.stage ∷ stages)
  observed :
      (now : ℕ) (pod : Pod) (tf : Terraform) {stages : List Stage}
      → History (tf.status.stage ∷ stages)
      → History ((observe_pod now pod tf).status.stage ∷ stages)
  moved :
      (get_pod : String → String → PodLookup) (now : ℕ) (tf tf' : Terraform) (is_retry : Bool)
      (stage : Stage) {stages : List Stage}
      → check_set_new_stage get_pod now tf is_retry ≡ checked tf' (some stage)
      → History (tf.status.stage ∷ stages)
      → History (stage ∷ tf.status.stage ∷ stages)

-- One of the stages was completed for the task and the generation.
abbrev pub Completed : TaskName → ℕ → List Stage → Type 0
Completed task generation stages =
    (s : Stage) × Memᴰ s stages
    × (s.task_type ≡ task)
    × (s.generation ≡ generation)
    × (s.state ≡ state_complete)

-- The stages before the last one passed every gate that the last one stands behind.
abbrev Guarded : List Stage → Type 0
Guarded [] = Unit
Guarded (s ∷ stages) =
    (order : List TaskName) (gate : TaskName)
    → Gate order gate
    → Memᴰ s.task_type order
    → rank gate < rank s.task_type
    → Completed gate s.generation stages

History-Guarded : {stages : List Stage} → History stages → Guarded stages
unfolding first_stage start_stage lose_pod observe_pod new_stage list_contains_task
History-Guarded (created now tf) = λ order gate g m lt. absurd (not_start g m lt refl)
History-Guarded (started tf h) = History-Guarded h
History-Guarded (lost tf h) = History-Guarded h
History-Guarded (observed now pod tf h) = History-Guarded h
History-Guarded (moved get_pod now tf tf' is_retry stage e h) = λ order gate g m lt.
    let (enters, same) = check_set_new_stage-Enters get_pod tf now is_retry e in
    let (n, c, here, which) = Enters-behind get_pod tf is_retry g m lt enters in
    elim which [
      | inl at ↦ (tf.status.stage, Memᴰ.head refl, at, n ∙ sym same, c)
      | inr behind ↦
          let (s, there, task, generation, state) = History-Guarded h order gate g here behind in
          (s, Memᴰ.tail there, task, generation ∙ n ∙ sym same, state)
    ]

-- No stage skips the plan or the apply task: in every history of a resource, whatever is changed,
-- retried, deleted or lost in between, if the last stage is of a task behind the plan or the apply
-- task of its workflow, then a stage of that gate was completed before, at the same generation. So
-- no apply task is entered in a generation of which the plan task was never completed.
pub History-passed :
    {s : Stage} {stages : List Stage} {order : List TaskName} {gate : TaskName}
    → History (s ∷ stages)
    → Gate order gate
    → Memᴰ s.task_type order
    → rank gate < rank s.task_type
    → Completed gate s.generation stages
History-passed {s} {stages} {order} {gate} h g m lt = History-Guarded h order gate g m lt
