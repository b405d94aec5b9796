-- ===== src/Controller/Workflow/Behind.antt =====
-- What is entered behind the plan and the apply task by checkSetNewStage of
-- pkg/controllers/terraform_controller.go.
use terraform_operator.Prelude.{
  ℕ, String, Bool, true, List, ◌≡◌, refl, sym, ap, ◌∙◌, subst, arith, ◌⊎◌, inl, inr, Memᴰ, ◌<◌, ◌≤◌,
  Bool-cases,
}
use terraform_operator.Prelude.Orders.{all-All, all, All-Memᴰ}
use terraform_operator.Api.Task.{
  TaskName, list_contains_task, run_nil, id, run_post_init, run_plan, run_apply,
  run_post_init_delete, run_plan_delete,
}
use terraform_operator.Api.Task.Lists.{list_contains_task_iff}
use terraform_operator.Api.Spec.{TaskOption}
use terraform_operator.Api.Stage.{state_complete}
use terraform_operator.Api.Resource.{Terraform}
use terraform_operator.Controller.Workflow.Tasks.{
  tasks_in_order, delete_tasks_in_order, next_task, get_configured_tasks,
}
use terraform_operator.Controller.Workflow.Decide.{PodLookup}
use terraform_operator.Controller.Workflow.Orders.{IsWorkflow, rank, workflow-ne-nil}
use terraform_operator.Controller.Workflow.Next.{next_task-ascends, next_task-keeps}
use terraform_operator.Controller.Workflow.Entries.{
  Enters, changed, destroyed, retried, retried_delete, advanced, again, again_delete,
}
use terraform_operator.Controller.Workflow.Gates.{
  Gate, plan, apply, plan_delete, apply_delete, same_or_behind, starts, Gate-IsWorkflow, Gate-Memᴰ,
  Gate-configured, apart, same_order, not_above,
}

Gate-not_above :
    {order : List TaskName} {d : TaskName} → Gate order d → all (not_above d) order ≡ true
unfolding list_contains_task id
Gate-not_above plan = refl
Gate-not_above apply = refl
Gate-not_above plan_delete = refl
Gate-not_above apply_delete = refl

start_low :
    {order : List TaskName} {d : TaskName} (t : TaskName)
    → Gate order d
    → Memᴰ t order
    → list_contains_task starts t ≡ true
    → rank t ≤ rank d
start_low {order} {d} t g m s =
    let h : not_above d t ≡ true =
      All-Memᴰ (λ u. not_above d u ≡ true) order (all-All (not_above d) order (Gate-not_above g))
        m in
    ground (arith, h, s)

-- Each workflow starts over before its first gate.
first_low :
    {order : List TaskName} {d : TaskName}
    → Gate order d
    → ((order ≡ tasks_in_order) → rank run_plan ≤ rank d)
      × ((order ≡ delete_tasks_in_order) → rank run_plan_delete ≤ rank d)
unfolding id
first_low plan = (
  λ _. omega arith,
  λ e. absurd (apart run_plan (Gate-Memᴰ plan) (subst (λ l. Memᴰ run_plan l) e (Gate-Memᴰ plan))),
)
first_low apply = (
  λ _. omega arith,
  λ e.
      absurd
        (apart run_apply (Gate-Memᴰ apply) (subst (λ l. Memᴰ run_apply l) e (Gate-Memᴰ apply))),
)
first_low plan_delete = (λ _. omega arith, λ _. omega arith)
first_low apply_delete = (λ _. omega arith, λ _. omega arith)

-- A workflow that starts over behind `after` does not start behind its first gate.
again_low :
    {order : List TaskName} {d : TaskName} (order' : List TaskName) (after p t : TaskName)
    (options : List TaskOption)
    → IsWorkflow order'
    → Memᴰ after order'
    → Gate order' p
    → rank after < rank p
    → ((order ≡ order') → rank p ≤ rank d)
    → Gate order d
    → Memᴰ t order
    → t ≡ next_task after (get_configured_tasks options)
    → rank t ≤ rank d
again_low {order} {d} order' after p t options w a gp lt low g m e =
    let next = next_task after (get_configured_tasks options) in
    let (some_task, bound) =
      next_task-keeps order' after p (get_configured_tasks options) w a (Gate-Memᴰ gp)
        (Gate-configured options gp) lt in
    elim (next_task-ascends order' after (get_configured_tasks options) w a) [
      | inl nil ↦ absurd (some_task nil)
      | inr (_, _, m') ↦
          let first =
            low (
              sym (same_order t (Gate-IsWorkflow g) w m (subst (λ u. Memᴰ u order') (sym e) m'))) in
          let same : rank t ≡ rank next = ap (λ u. rank u) e in omega (arith, first, bound, same)
    ]

le_cases : (m n : ℕ) → (m ≤ n) ⊎ (n < m)
le_cases m n = ground arith

module _ {order : List TaskName} {d t : TaskName} (g : Gate order d) (m : Memᴰ t order)
    (lt : rank d < rank t) where
  pub not_start : list_contains_task starts t ≡ true → ⊥
  not_start s = let low = start_low t g m s in omega (arith, low, lt)

  not_again :
      (order' : List TaskName) (after p : TaskName) (options : List TaskOption)
      → IsWorkflow order'
      → Memᴰ after order'
      → Gate order' p
      → rank after < rank p
      → ((order ≡ order') → rank p ≤ rank d)
      → t ≡ next_task after (get_configured_tasks options)
      → ⊥
  not_again order' after p options w a gp up low e =
      let bound = again_low order' after p t options w a gp up low g m e in omega (arith, bound, lt)

  -- `nextTask` answers a task for a task of a workflow only.
  known :
      (current : TaskName) (configured : List TaskName)
      → t ≡ next_task current configured
      → (order' : List TaskName) × IsWorkflow order' × Memᴰ current order'
  unfolding next_task
  known current configured e = elim (Bool-cases (list_contains_task tasks_in_order current)) [
    | inl c ↦ (tasks_in_order, inl refl, (list_contains_task_iff tasks_in_order current).0 c)
    | inr c ↦ elim (Bool-cases (list_contains_task delete_tasks_in_order current)) [
      | inl c' ↦ (
        delete_tasks_in_order,
        inr refl,
        (list_contains_task_iff delete_tasks_in_order current).0 c',
      )
      | inr c' ↦
          let nil : t ≡ run_nil = ground (arith, e, c, c') in
          absurd (workflow-ne-nil order (Gate-IsWorkflow g) m nil)
    ]
  ]

  completed_behind :
      (current : TaskName) (options : List TaskOption)
      → t ≡ next_task current (get_configured_tasks options)
      → Memᴰ current order × ((current ≡ d) ⊎ (rank d < rank current))
  completed_behind current options e =
      let configured = get_configured_tasks options in
      let (order', w, c) = known current configured e in
      let ne = workflow-ne-nil order (Gate-IsWorkflow g) m in
      elim (next_task-ascends order' current configured w c) [
        | inl nil ↦ absurd (ne (e ∙ nil))
        | inr (_, _, m') ↦
            let same =
              same_order t (Gate-IsWorkflow g) w m (subst (λ u. Memᴰ u order') (sym e) m') in
            let here : Memᴰ current order = subst (λ l. Memᴰ current l) same c in
            elim (le_cases (rank d) (rank current)) [
              | inl le ↦ (here, same_or_behind d current (Gate-IsWorkflow g) (Gate-Memᴰ g) here le)
              | inr less ↦
                  let (_, bound) =
                    next_task-keeps order current d configured (Gate-IsWorkflow g) here
                      (Gate-Memᴰ g) (Gate-configured options g) less in
                  let same_rank : rank t ≡ rank (next_task current configured) =
                    ap (λ u. rank u) e in
                  absurd (omega (arith, bound, lt, same_rank))
            ]
      ]

-- A task behind a gate is entered from a completed task of the same workflow and generation, which
-- is the gate or stands behind it.
pub Enters-behind :
    (get_pod : String → String → PodLookup) (tf : Terraform) (is_retry : Bool)
    {order : List TaskName} {d t : TaskName}
    → Gate order d
    → Memᴰ t order
    → rank d < rank t
    → Enters get_pod tf is_retry t
    → (tf.status.stage.generation ≡ tf.generation)
      × (tf.status.stage.state ≡ state_complete)
      × Memᴰ tf.status.stage.task_type order
      × ((tf.status.stage.task_type ≡ d) ⊎ (rank d < rank tf.status.stage.task_type))
unfolding list_contains_task id
Enters-behind get_pod tf is_retry g m lt (changed n d p e) =
    absurd (not_start g m lt (ap (list_contains_task starts) e))
Enters-behind get_pod tf is_retry g m lt (destroyed n d p e) =
    absurd (not_start g m lt (ap (list_contains_task starts) e))
Enters-behind get_pod tf is_retry g m lt (retried n d r (inl e)) =
    absurd (not_start g m lt (ap (list_contains_task starts) e))
Enters-behind get_pod tf is_retry g m lt (retried n d r (inr e)) =
    absurd (not_start g m lt (ap (list_contains_task starts) e))
Enters-behind get_pod tf is_retry g m lt (retried_delete n d r (inl e)) =
    absurd (not_start g m lt (ap (list_contains_task starts) e))
Enters-behind get_pod tf is_retry g m lt (retried_delete n d r (inr e)) =
    absurd (not_start g m lt (ap (list_contains_task starts) e))
Enters-behind get_pod tf is_retry g m lt (advanced n c k e) =
    let (here, behind) = completed_behind g m lt tf.status.stage.task_type tf.spec.task_options e in
    (n, c, here, behind)
Enters-behind get_pod tf is_retry g m lt (again n f k gone e) = absurd (
    not_again g m lt tasks_in_order run_post_init run_plan tf.spec.task_options (inl refl)
      ((list_contains_task_iff tasks_in_order run_post_init).0 refl) plan (omega arith)
      (first_low g).0 e)
Enters-behind get_pod tf is_retry g m lt (again_delete n f k gone e) = absurd (
    not_again g m lt delete_tasks_in_order run_post_init_delete run_plan_delete tf.spec.task_options
      (inr refl) ((list_contains_task_iff delete_tasks_in_order run_post_init_delete).0 refl)
      plan_delete (omega arith) (first_low g).1 e)
