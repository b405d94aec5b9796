-- ===== src/Controller/Workflow/Next.antt =====
-- The order of the workflow: what `nextTask` answers, and why a workflow ends.
use terraform_operator.Prelude.{
  append_assoc, ℕ, zero, suc, ◌+◌, ◌≤◌, ◌<◌, true, false, List, ◌∷◌, ◌++◌, ◌≡◌, ◌≢◌, refl, sym, ap,
  ◌∙◌, subst, arith, inl, inr, All, Memᴰ, ◌⊎◌,
}
use terraform_operator.Prelude.Orders.{
  Memᴰ-split, All-Memᴰ, pairwise, pairwise-split, All-middle, All-imp, Memᴰ-append, Memᴰ-middle,
  Memᴰ-append-cases,
}
use terraform_operator.Api.Task.{TaskName, list_contains_task, run_nil}
use terraform_operator.Api.Task.Lists.{list_contains_task_iff}
use terraform_operator.Controller.Workflow.Tasks.{
  tasks_in_order, delete_tasks_in_order, next_task, scan_tasks,
}
use terraform_operator.Controller.Workflow.Scan.{IsNext, finished, advances, scan_tasks-IsNext}
use terraform_operator.Controller.Workflow.Orders.{
  IsWorkflow, differ, tasks_distinct, not_in_create, split-Avoids, rank, lower, workflow_ascends,
  lower-lt, rank-ne-nil, create_bound,
}

scan-IsNext :
    (order : List TaskName) (current : TaskName) (configured : List TaskName)
    → pairwise differ order ≡ true
    → Memᴰ current order
    → IsNext order current configured (scan_tasks false current configured order)
scan-IsNext order current configured distinct m =
    let (before, after, e) = Memᴰ-split order m in
    let (hb, ha) = split-Avoids order before after current distinct e in
    scan_tasks-IsNext current configured order before after e hb ha

-- `nextTask` of a task of either workflow is the first configured task that stands behind it in
-- the order of that workflow, and the empty name if there is none.
pub next_task-IsNext :
    (order : List TaskName) (current : TaskName) (configured : List TaskName)
    → IsWorkflow order
    → Memᴰ current order
    → IsNext order current configured (next_task current configured)
unfolding next_task
next_task-IsNext order current configured (inl e) m =
    let here : Memᴰ current tasks_in_order = subst (λ l. Memᴰ current l) e m in
    rw (e, (list_contains_task_iff tasks_in_order current).1 here)
      (scan-IsNext tasks_in_order current configured tasks_distinct.0 here)
next_task-IsNext order current configured (inr e) m =
    let here : Memᴰ current delete_tasks_in_order = subst (λ l. Memᴰ current l) e m in
    rw
      (e, not_in_create current here, (list_contains_task_iff delete_tasks_in_order current).1 here)
      (scan-IsNext delete_tasks_in_order current configured tasks_distinct.1 here)

Memᴰ-cons-cases : {x y : TaskName} {l : List TaskName} → Memᴰ x (y ∷ l) → (x ≡ y) ⊎ Memᴰ x l
Memᴰ-cons-cases (Memᴰ.head e) = inl e
Memᴰ-cons-cases (Memᴰ.tail m) = inr m

module _ (order : List TaskName) (current : TaskName) (configured : List TaskName)
    (asc : pairwise lower order ≡ true) where
  -- A split of the order puts lower ids before the task, and higher ids behind it.
  pub split_ranks :
      (before after : List TaskName) (t : TaskName)
      → order ≡ before ++ t ∷ after
      → All (λ u. rank u < rank t) before × All (λ u. rank t < rank u) after
  split_ranks before after t e =
      let (hb, ha) =
        pairwise-split lower before after t (subst (λ l. pairwise lower l ≡ true) e asc) in
      (All-imp (λ u h. lower-lt u t h) before hb, All-imp (λ u h. lower-lt t u h) after ha)

  IsNext-ascends :
      (next : TaskName)
      → IsNext order current configured next
      → (next ≡ run_nil)
        ⊎ ((list_contains_task configured next ≡ true)
            × (rank current < rank next)
            × Memᴰ next order)
  IsNext-ascends next (finished before after e none nil) = inl nil
  IsNext-ascends next (advances before skipped after e none c) =
      let (hb, ha) = split_ranks before (skipped ++ next ∷ after) current e in
      inr (
        c,
        All-middle (λ u. rank current < rank u) skipped after next ha,
        rw e (Memᴰ-append before (Memᴰ.tail (Memᴰ-middle skipped after next))),
      )

  -- A task of a higher id stands behind the current one.
  behind :
      (before after : List TaskName) (u : TaskName)
      → order ≡ before ++ current ∷ after
      → Memᴰ u order
      → rank current < rank u
      → Memᴰ u after
  behind before after u e m lt =
      let (hb, ha) = split_ranks before after current e in
      elim (Memᴰ-append-cases before (current ∷ after) (subst (λ l. Memᴰ u l) e m)) [
        | inl h ↦
            let small = All-Memᴰ (λ v. rank v < rank current) before hb h in absurd (omega arith)
        | inr h ↦ elim (Memᴰ-cons-cases h) [
          | inl same ↦
              let eq : rank u ≡ rank current = ap (λ v. rank v) same in absurd (omega arith)
          | inr later ↦ later
        ]
      ]

  -- A configured task behind the current one is not jumped over.
  IsNext-keeps :
      (next u : TaskName)
      → IsNext order current configured next
      → Memᴰ u order
      → list_contains_task configured u ≡ true
      → rank current < rank u
      → (next ≢ run_nil) × (rank next ≤ rank u)
  IsNext-keeps next u (finished before after e none nil) m c lt =
      let free =
        All-Memᴰ (λ t. list_contains_task configured t ≡ false) after none
          (behind before after u e m lt) in
      absurd (ground (arith, free, c))
  IsNext-keeps next u (advances before skipped after e none found) m c lt =
      let (hb, ha) = split_ranks before (skipped ++ next ∷ after) current e in
      let up = All-middle (λ v. rank current < rank v) skipped after next ha in
      let split = e ∙ sym (append_assoc before (current ∷ skipped) (next ∷ after)) in
      let (_, above) = split_ranks (before ++ current ∷ skipped) after next split in
      (
        rank-ne-nil next (omega arith),
        elim (Memᴰ-append-cases skipped (next ∷ after) (behind before _ u e m lt)) [
          | inl h ↦
              let free = All-Memᴰ (λ t. list_contains_task configured t ≡ false) skipped none h in
              absurd (ground (arith, free, c))
          | inr h ↦ elim (Memᴰ-cons-cases h) [
            | inl same ↦ let eq : rank u ≡ rank next = ap (λ v. rank v) same in omega arith
            | inr later ↦
                let far = All-Memᴰ (λ v. rank next < rank v) after above later in omega arith
          ]
        ],
      )

-- The task that `nextTask` names is configured, is of the same workflow, and has a higher id.
pub next_task-ascends :
    (order : List TaskName) (current : TaskName) (configured : List TaskName)
    → IsWorkflow order
    → Memᴰ current order
    → (next_task current configured ≡ run_nil)
      ⊎ ((list_contains_task configured (next_task current configured) ≡ true)
          × (rank current < rank (next_task current configured))
          × Memᴰ (next_task current configured) order)
next_task-ascends order current configured w m =
    IsNext-ascends order current configured (workflow_ascends order w)
      (next_task current configured) (next_task-IsNext order current configured w m)

-- A configured task of the workflow that is still to come is not jumped over: `nextTask` names a
-- task, and none of a higher id.
pub next_task-keeps :
    (order : List TaskName) (current u : TaskName) (configured : List TaskName)
    → IsWorkflow order
    → Memᴰ current order
    → Memᴰ u order
    → list_contains_task configured u ≡ true
    → rank current < rank u
    → (next_task current configured ≢ run_nil) × (rank (next_task current configured) ≤ rank u)
next_task-keeps order current u configured w m mu c lt =
    IsNext-keeps order current configured (workflow_ascends order w) (next_task current configured)
      u (next_task-IsNext order current configured w m) mu c lt

-- The tasks of a workflow, one after another.
abbrev pub run_tasks : ℕ → List TaskName → TaskName → TaskName
run_tasks zero configured t = t
run_tasks (suc n) configured t = run_tasks n configured (next_task t configured)

pub run_tasks-nil : (n : ℕ) (configured : List TaskName) → run_tasks n configured run_nil ≡ run_nil
unfolding next_task list_contains_task
run_tasks-nil zero configured = refl
run_tasks-nil (suc n) configured = run_tasks-nil n configured

run_tasks_from :
    (n top : ℕ) (order configured : List TaskName) (t : TaskName)
    → IsWorkflow order
    → All (λ u. rank u ≤ top) order
    → Memᴰ t order
    → top < rank t + n
    → run_tasks n configured t ≡ run_nil
run_tasks_from zero top order configured t w bound m h =
    let b : rank t ≤ top = All-Memᴰ (λ u. rank u ≤ top) order bound m in absurd (omega arith)
run_tasks_from (suc n) top order configured t w bound m h =
    elim (next_task-ascends order t configured w m) [
      | inl nil ↦ rw nil (run_tasks-nil n configured)
      | inr (c, lt, m') ↦
          run_tasks_from n top order configured (next_task t configured) w bound m' (omega arith)
    ]

-- From any task of a workflow, ten completed stages at most end it.
pub run_tasks_end :
    (order configured : List TaskName) (t : TaskName)
    → IsWorkflow order
    → Memᴰ t order
    → run_tasks 10 configured t ≡ run_nil
run_tasks_end order configured t (inl e) m =
    let bound =
      All-imp {P = λ u. (0 < rank u) × (rank u ≤ 10)} {Q = λ u. rank u ≤ 10} (λ u h. h.1)
        tasks_in_order create_bound.0 in
    let low =
      All-Memᴰ (λ u. (0 < rank u) × (rank u ≤ 10)) tasks_in_order create_bound.0
        (subst (λ l. Memᴰ t l) e m) in
    run_tasks_from 10 10 tasks_in_order configured t (inl refl) bound (subst (λ l. Memᴰ t l) e m)
      (omega (arith, low.0))
run_tasks_end order configured t (inr e) m =
    let bound =
      All-imp {P = λ u. (100 < rank u) × (rank u ≤ 110)} {Q = λ u. rank u ≤ 110} (λ u h. h.1)
        delete_tasks_in_order create_bound.1 in
    let low =
      All-Memᴰ (λ u. (100 < rank u) × (rank u ≤ 110)) delete_tasks_in_order create_bound.1
        (subst (λ l. Memᴰ t l) e m) in
    run_tasks_from 10 110 delete_tasks_in_order configured t (inr refl) bound
      (subst (λ l. Memᴰ t l) e m) (omega (arith, low.0))
