-- ===== src/Controller/Workflow/Orders.antt =====
-- The two workflows: their tasks differ, and their ids ascend.
use terraform_operator.Prelude.{
  ℕ, ◌≤◌, ◌<◌, Bool, true, false, List, ◌∷◌, ◌++◌, ◌==◌, ◌≡◌, ◌≢◌, refl, sym, ap, subst, arith,
  eq_iff, inl, inr, All, Memᴰ, ◌⊎◌, not, pos, negsuc, ltb,
}
use terraform_operator.Prelude.Orders.{all, all-All, All-Memᴰ, pairwise, pairwise-split, All-imp}
use terraform_operator.Api.Task.{TaskName, list_contains_task, run_nil, id}
use terraform_operator.Controller.Workflow.Tasks.{tasks_in_order, delete_tasks_in_order}
use terraform_operator.Controller.Workflow.Scan.{Avoids}

-- One of the two workflows.
abbrev pub IsWorkflow : List TaskName → Type 0
IsWorkflow order = (order ≡ tasks_in_order) ⊎ (order ≡ delete_tasks_in_order)

abbrev pub differ : TaskName → TaskName → Bool
differ t u = not (t == u)

-- The two orders name no task twice and share none.
pub tasks_distinct :
    (pairwise differ tasks_in_order ≡ true) × (pairwise differ delete_tasks_in_order ≡ true)
tasks_distinct = (refl, refl)

pub orders_apart : all (λ t. not (list_contains_task tasks_in_order t)) delete_tasks_in_order ≡ true
unfolding list_contains_task
orders_apart = refl

pub not_in_create :
    (t : TaskName) → Memᴰ t delete_tasks_in_order → list_contains_task tasks_in_order t ≡ false
not_in_create t m = ground (
  arith,
  All-Memᴰ (λ u. not (list_contains_task tasks_in_order u) ≡ true) delete_tasks_in_order
      (all-All (λ u. not (list_contains_task tasks_in_order u)) delete_tasks_in_order orders_apart)
      m,
)

pub differ-ne : (t u : TaskName) → differ t u ≡ true → t ≢ u
differ-ne t u h e = ground (arith, eq_iff t u)

-- Around a task of an order that names no task twice, it stands nowhere else.
pub split-Avoids :
    (order before after : List TaskName) (t : TaskName)
    → pairwise differ order ≡ true
    → order ≡ before ++ t ∷ after
    → Avoids t before × Avoids t after
split-Avoids order before after t distinct e =
    let (hb, ha) =
      pairwise-split differ before after t (subst (λ l. pairwise differ l ≡ true) e distinct) in
    (
      All-imp (λ u h. differ-ne u t h) before hb,
      All-imp (λ u h q. differ-ne t u h (sym q)) after ha,
    )

-- The id of a task of a workflow, which is not negative.
abbrev pub rank : TaskName → ℕ
rank t = elim (id t) [ pos n ↦ n | negsuc n ↦ 0 ]

abbrev pub lower : TaskName → TaskName → Bool
lower t u = ltb (rank t) (rank u)

pub ranks_ascend :
    (pairwise lower tasks_in_order ≡ true) × (pairwise lower delete_tasks_in_order ≡ true)
unfolding id
ranks_ascend = (refl, refl)

pub workflow_ascends : (order : List TaskName) → IsWorkflow order → pairwise lower order ≡ true
workflow_ascends order (inl e) = rw e ranks_ascend.0
workflow_ascends order (inr e) = rw e ranks_ascend.1

pub lower-lt : (t u : TaskName) → lower t u ≡ true → rank t < rank u
lower-lt t u h = ground arith

pub rank-ne-nil : (t : TaskName) → 0 < rank t → t ≢ run_nil
unfolding id
rank-ne-nil t h e = let r : rank t ≡ rank run_nil = ap (λ v. rank v) e in omega arith

pub create_bound :
    (All (λ u. (0 < rank u) × (rank u ≤ 10)) tasks_in_order)
    × (All (λ u. (100 < rank u) × (rank u ≤ 110)) delete_tasks_in_order)
unfolding id
create_bound = omega arith

-- No task of a workflow is the empty task.
pub workflow-ne-nil :
    (order : List TaskName) {t : TaskName} → IsWorkflow order → Memᴰ t order → t ≢ run_nil
workflow-ne-nil order {t} (inl e) m =
    let low =
      All-Memᴰ (λ u. (0 < rank u) × (rank u ≤ 10)) tasks_in_order create_bound.0
        (subst (λ l. Memᴰ t l) e m) in
    rank-ne-nil t low.0
workflow-ne-nil order {t} (inr e) m =
    let low =
      All-Memᴰ (λ u. (100 < rank u) × (rank u ≤ 110)) delete_tasks_in_order create_bound.1
        (subst (λ l. Memᴰ t l) e m) in
    rank-ne-nil t (omega (arith, low.0))
