-- ===== src/Controller/Cleanup/OldPlan.antt =====
-- Which pods removeOldPlan of pkg/controllers/terraform_controller.go deletes.
use terraform_operator.Prelude.{
  text_cases, ℕ, String, Bool, true, false, List, [], ◌∷◌, ◌++◌, ◌==◌, ◌≡◌, ◌≢◌, ◌↔◌, refl, arith,
  eq_iff, not, ◌&&◌, ◌||◌, inl, inr, ◌∙◌,
}
use terraform_operator.Api.Task.{
  TaskName, list_contains_task, run_setup, run_pre_init, run_init, run_post_init, run_setup_delete,
  run_pre_init_delete, run_init_delete, run_post_init_delete,
}
use terraform_operator.Api.Spec.{StringMap, EnvFromSource}
use terraform_operator.Api.Resource.{Terraform}
use terraform_operator.Cluster.{pod}
use terraform_operator.Cluster.Effects.{api_result}
use terraform_operator.Cluster.Client.{
  Client, Condition, label_exists, label_is, label_is_not, field_is, field_is_not,
}
use terraform_operator.Controller.Options.{Inherited}
use terraform_operator.Controller.PodTemplate.{pod_labels}
use terraform_operator.Controller.PodTemplate.Labels.{options_of}
use terraform_operator.Controller.Cleanup.{
  kept_tasks, old_plan_selector, remove_old_plan, not_running, instances_but,
}
use terraform_operator.Controller.Cleanup.Selectors.{meets_all, old_plan_selector_picks}

-- The API server's reading of a condition on the phase of a pod. Other fields are not looked at.
abbrev pub meets_phase : (phase : String) → Condition → Bool
meets_phase phase (label_exists key) = true
meets_phase phase (label_is key v) = true
meets_phase phase (label_is_not key v) = true
meets_phase phase (field_is field v) = not (field == "status.phase") || phase == v
meets_phase phase (field_is_not field v) = not (field == "status.phase" && phase == v)

abbrev pub meets_phases : (phase : String) → List Condition → Bool
meets_phases phase [] = true
meets_phases phase (c ∷ conditions) = meets_phase phase c && meets_phases phase conditions

-- A pod with the labels and the phase is among those that the conditions select.
abbrev pub picks : StringMap → (phase : String) → List Condition → Bool
picks labels phase conditions = meets_all labels conditions && meets_phases phase conditions

-- The tasks whose pods go with the old plan, by the reason that is given.
pub data Goes (reason : String) (task : TaskName) : Type 0 where
  restarted :
      reason ≡ "RESTARTED_WORKFLOW"
      → task ≢ run_setup
      → task ≢ run_pre_init
      → task ≢ run_init
      → task ≢ run_post_init
      → Goes reason task
  restarted_delete :
      reason ≡ "RESTARTED_DELETE_WORKFLOW"
      → task ≢ run_setup_delete
      → task ≢ run_pre_init_delete
      → task ≢ run_init_delete
      → task ≢ run_post_init_delete
      → Goes reason task
  otherwise :
      reason ≢ "RESTARTED_WORKFLOW" → reason ≢ "RESTARTED_DELETE_WORKFLOW" → Goes reason task

lacks_four :
    (a b c d task : TaskName)
    → (list_contains_task (a ∷ b ∷ c ∷ d ∷ []) task ≡ false)
      ↔ ((task ≢ a) × (task ≢ b) × (task ≢ c) × (task ≢ d))
unfolding list_contains_task
lacks_four a b c d task = (
  λ h. ground (arith, eq_iff a task, eq_iff b task, eq_iff c task, eq_iff d task),
  λ h. ground (arith, eq_iff a task, eq_iff b task, eq_iff c task, eq_iff d task),
)

Goes-kept :
    (reason : String) (task : TaskName)
    → Goes reason task
    → list_contains_task (kept_tasks reason) task ≡ false
unfolding kept_tasks
Goes-kept reason task (restarted e a b c d) =
    let free = (lacks_four run_setup run_pre_init run_init run_post_init task).1 (a, b, c, d) in
    ground (arith, eq_iff reason "RESTARTED_WORKFLOW")
Goes-kept reason task (restarted_delete e a b c d) =
    let free =
      (lacks_four run_setup_delete run_pre_init_delete run_init_delete run_post_init_delete task).1
        (a, b, c, d) in
    rw e free
Goes-kept reason task (otherwise n m) =
    unfold list_contains_task in
    ground (arith, eq_iff reason "RESTARTED_WORKFLOW", eq_iff reason "RESTARTED_DELETE_WORKFLOW")

kept-Goes :
    (reason : String) (task : TaskName)
    → list_contains_task (kept_tasks reason) task ≡ false
    → Goes reason task
unfolding kept_tasks
kept-Goes reason task h = elim (text_cases reason "RESTARTED_WORKFLOW") [
  | inl (e, b) ↦
      let (p, q, r, s) =
        (lacks_four run_setup run_pre_init run_init run_post_init task).0 (rw b at h) in
      restarted e p q r s
  | inr (n, b) ↦ elim (text_cases reason "RESTARTED_DELETE_WORKFLOW") [
    | inl (e, b') ↦
        let (p, q, r, s) =
          (lacks_four run_setup_delete run_pre_init_delete run_init_delete run_post_init_delete
              task).0
            (rw (b, b') at h) in
        restarted_delete e p q r s
    | inr (m, b') ↦ otherwise n m
  ]
]

meets_phases-instances :
    (phase : String) (tasks : List TaskName)
    → meets_phases phase (instances_but tasks ++ not_running ∷ []) ≡ not (phase == "Running")
unfolding instances_but
meets_phases-instances phase [] = ground arith
meets_phases-instances phase (t ∷ tasks) = meets_phases-instances phase tasks

meets_all-not_running :
    (labels : StringMap) (conditions : List Condition)
    → meets_all labels (conditions ++ not_running ∷ []) ≡ meets_all labels conditions
meets_all-not_running labels [] = refl
meets_all-not_running labels (c ∷ conditions) =
    ground (arith, meets_all-not_running labels conditions)

-- `removeOldPlan` sends one deletion, whose selector picks a pod that the operator made for the
-- generation of the resource exactly if the pod is not running and its task goes with the old plan:
-- for the reason RESTARTED_WORKFLOW every task but setup, preinit, init and postinit, for
-- RESTARTED_DELETE_WORKFLOW every task but the same four of the delete workflow, and for any other
-- reason every task.
pub remove_old_plan-picks :
    (md5 : String → String) (c : Client) (tf : Terraform) (task : TaskName) (generation : ℕ)
    (env : List EnvFromSource) (inherited : Inherited) (approval phase reason : String)
    (w : c.World)
    → (selector : List Condition) × (remove_old_plan md5 c tf.namespace tf.name reason generation w
        ≡ api_result (c.delete_all_of pod tf.namespace selector w))
      × ((picks
              (pod_labels (options_of md5 tf task generation env inherited approval))
              phase
              selector
            ≡ true)
          ↔ ((phase ≢ "Running") × Goes reason task))
unfolding remove_old_plan
remove_old_plan-picks md5 c tf task generation env inherited approval phase reason w =
    let labels = pod_labels (options_of md5 tf task generation env inherited approval) in
    let selector = old_plan_selector md5 tf.name reason generation in
    let by_labels : meets_all labels (selector ++ not_running ∷ [])
        ≡ not (list_contains_task (kept_tasks reason) task) =
      meets_all-not_running labels selector
      ∙ old_plan_selector_picks md5 tf task generation env inherited approval reason in
    let by_phase : meets_phases phase (selector ++ not_running ∷ []) ≡ not (phase == "Running") =
      unfold old_plan_selector in meets_phases-instances phase (kept_tasks reason) in
    (
      selector ++ not_running ∷ [],
      refl,
      (
        λ h. (λ p. ground (arith, eq_iff phase "Running"), kept-Goes reason task (ground arith)),
        λ (n, g). let free = Goes-kept reason task g in ground (arith, eq_iff phase "Running"),
      ),
    )
