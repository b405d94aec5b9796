-- ===== src/Api/Task/Lists.antt =====
-- Membership and equality of task lists (helpers.go).
use terraform_operator.Prelude.{
  subst, true, List, [], ◌∷◌, ◌≡◌, ◌↔◌, refl, sym, Memᴰ, arith, eq_iff, inl, inr, eq_refl,
  text_cases, ◌++◌, ◌||◌,
}
use terraform_operator.Api.Task.{TaskName, list_contains_task, task_lists_are_equal}

pub list_contains_task-Memᴰ :
    (tasks : List TaskName) (t : TaskName) → list_contains_task tasks t ≡ true → Memᴰ t tasks
unfolding list_contains_task
list_contains_task-Memᴰ [] t h = cc
list_contains_task-Memᴰ (i ∷ tasks) t h = elim (text_cases i t) [
  | inl (e, _) ↦ Memᴰ.head (sym e)
  | inr (_, e) ↦ Memᴰ.tail (list_contains_task-Memᴰ tasks t (rw e at h))
]

pub Memᴰ-list_contains_task :
    {t : TaskName} (tasks : List TaskName) → Memᴰ t tasks → list_contains_task tasks t ≡ true
unfolding list_contains_task
Memᴰ-list_contains_task [] m = elim m [ ]
Memᴰ-list_contains_task {t} (i ∷ tasks) (Memᴰ.head e) = ground (arith, eq_iff i t)
Memᴰ-list_contains_task {t} (i ∷ tasks) (Memᴰ.tail m) =
    ground (arith, Memᴰ-list_contains_task tasks m)

-- `ListContainsTask` answers true exactly for the members of the list.
pub list_contains_task_iff :
    (tasks : List TaskName) (t : TaskName) → (list_contains_task tasks t ≡ true) ↔ Memᴰ t tasks
list_contains_task_iff tasks t = (list_contains_task-Memᴰ tasks t, Memᴰ-list_contains_task tasks)

pub list_contains_task-append :
    (l r : List TaskName) (t : TaskName)
    → list_contains_task (l ++ r) t ≡ (list_contains_task l t || list_contains_task r t)
unfolding list_contains_task
list_contains_task-append [] r t = refl
list_contains_task-append (i ∷ l) r t = ground (arith, list_contains_task-append l r t)

task_lists_are_equal-eq : (l1 l2 : List TaskName) → task_lists_are_equal l1 l2 ≡ true → l1 ≡ l2
unfolding task_lists_are_equal
task_lists_are_equal-eq [] [] h = refl
task_lists_are_equal-eq [] (u ∷ l2) h = ground arith
task_lists_are_equal-eq (t ∷ l1) [] h = ground arith
task_lists_are_equal-eq (t ∷ l1) (u ∷ l2) h =
    ground (arith, eq_iff t u, task_lists_are_equal-eq l1 l2)

task_lists_are_equal_refl : (l : List TaskName) → task_lists_are_equal l l ≡ true
unfolding task_lists_are_equal
task_lists_are_equal_refl [] = refl
task_lists_are_equal_refl (t ∷ l) = ground (arith, eq_refl t, task_lists_are_equal_refl l)

-- `TaskListsAreEqual` answers true exactly for equal lists.
pub task_lists_are_equal_iff :
    (l1 l2 : List TaskName) → (task_lists_are_equal l1 l2 ≡ true) ↔ (l1 ≡ l2)
task_lists_are_equal_iff l1 l2 = (
  task_lists_are_equal-eq l1 l2,
  λ e. subst (λ l. task_lists_are_equal l1 l ≡ true) e (task_lists_are_equal_refl l1),
)
