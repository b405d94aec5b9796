-- ===== src/Controller/Workflow/Gates.antt =====
-- The plan and apply tasks as gates: what is entered behind them.
use terraform_operator.Prelude.{
  leb, not, Bool, true, List, [], ◌∷◌, ◌≡◌, refl, sym, ◌∙◌, subst, arith, ◌⊎◌, inl, inr, Memᴰ, ◌<◌,
  ◌≤◌, ◌||◌,
}
use terraform_operator.Prelude.Orders.{Memᴰ-split, All-Memᴰ, Memᴰ-append-cases}
use terraform_operator.Api.Task.{
  TaskName, list_contains_task, run_setup, run_init, run_plan, run_apply, run_setup_delete,
  run_init_delete, run_plan_delete, run_apply_delete,
}
use terraform_operator.Api.Task.Lists.{list_contains_task_iff}
use terraform_operator.Api.Spec.{TaskOption}
use terraform_operator.Controller.Workflow.Tasks.{
  tasks_in_order, delete_tasks_in_order, get_configured_tasks, default_tasks,
}
use terraform_operator.Controller.Workflow.Orders.{
  IsWorkflow, not_in_create, rank, workflow_ascends,
}
use terraform_operator.Controller.Workflow.Configured.{list_contains_task-get_configured_tasks}
use terraform_operator.Controller.Workflow.Next.{split_ranks}

-- The plan and the apply task of a workflow.
pub data Gate : List TaskName → TaskName → Type 0 where
  plan : Gate tasks_in_order run_plan
  apply : Gate tasks_in_order run_apply
  plan_delete : Gate delete_tasks_in_order run_plan_delete
  apply_delete : Gate delete_tasks_in_order run_apply_delete

-- The tasks at which a workflow starts.
abbrev pub starts : List TaskName
starts = run_setup ∷ run_init ∷ run_setup_delete ∷ run_init_delete ∷ []

-- A task of the order is no start, or has no higher id than the gate.
abbrev pub not_above : TaskName → TaskName → Bool
not_above d t = not (list_contains_task starts t) || leb (rank t) (rank d)

pub Gate-IsWorkflow : {order : List TaskName} {d : TaskName} → Gate order d → IsWorkflow order
Gate-IsWorkflow plan = inl refl
Gate-IsWorkflow apply = inl refl
Gate-IsWorkflow plan_delete = inr refl
Gate-IsWorkflow apply_delete = inr refl

pub Gate-Memᴰ : {order : List TaskName} {d : TaskName} → Gate order d → Memᴰ d order
unfolding list_contains_task
Gate-Memᴰ plan = (list_contains_task_iff tasks_in_order run_plan).0 refl
Gate-Memᴰ apply = (list_contains_task_iff tasks_in_order run_apply).0 refl
Gate-Memᴰ plan_delete = (list_contains_task_iff delete_tasks_in_order run_plan_delete).0 refl
Gate-Memᴰ apply_delete = (list_contains_task_iff delete_tasks_in_order run_apply_delete).0 refl

-- A default task is configured whatever the options are.
default_configured :
    (options : List TaskOption) (t : TaskName)
    → list_contains_task default_tasks t ≡ true
    → list_contains_task (get_configured_tasks options) t ≡ true
default_configured options t h =
    list_contains_task-get_configured_tasks options t ∙ ground (arith, h)

pub Gate-configured :
    {order : List TaskName} {d : TaskName} (options : List TaskOption)
    → Gate order d
    → list_contains_task (get_configured_tasks options) d ≡ true
unfolding list_contains_task
Gate-configured options plan = default_configured options run_plan refl
Gate-configured options apply = default_configured options run_apply refl
Gate-configured options plan_delete = default_configured options run_plan_delete refl
Gate-configured options apply_delete = default_configured options run_apply_delete refl

-- The two workflows share no task.
pub apart : (t : TaskName) → Memᴰ t tasks_in_order → Memᴰ t delete_tasks_in_order → ⊥
apart t m m' = ground (arith, not_in_create t m', (list_contains_task_iff tasks_in_order t).1 m)

pub same_order :
    {order order' : List TaskName} (t : TaskName)
    → IsWorkflow order
    → IsWorkflow order'
    → Memᴰ t order
    → Memᴰ t order'
    → order' ≡ order
same_order t (inl e) (inl e') m m' = e' ∙ sym e
same_order t (inr e) (inr e') m m' = e' ∙ sym e
same_order t (inl e) (inr e') m m' =
    absurd (apart t (subst (λ l. Memᴰ t l) e m) (subst (λ l. Memᴰ t l) e' m'))
same_order t (inr e) (inl e') m m' =
    absurd (apart t (subst (λ l. Memᴰ t l) e' m') (subst (λ l. Memᴰ t l) e m))

-- Of two tasks of a workflow the one of the lower or same id is the other one, or comes before it.
pub same_or_behind :
    {order : List TaskName} (d t : TaskName)
    → IsWorkflow order
    → Memᴰ d order
    → Memᴰ t order
    → rank d ≤ rank t
    → (t ≡ d) ⊎ (rank d < rank t)
same_or_behind {order} d t w m m' le =
    let (before, after, e) = Memᴰ-split order m in
    let (low, high) = split_ranks order d [] (workflow_ascends order w) before after d e in
    elim (Memᴰ-append-cases before (d ∷ after) (subst (λ l. Memᴰ t l) e m')) [
      | inl h ↦ let small = All-Memᴰ (λ u. rank u < rank d) before low h in absurd (omega arith)
      | inr (Memᴰ.head same) ↦ inl same
      | inr (Memᴰ.tail h) ↦ inr (All-Memᴰ (λ u. rank d < rank u) after high h)
    ]
