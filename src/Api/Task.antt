-- ===== src/Api/Task.antt =====
-- Task names: pkg/apis/tf/v1beta1/terraform_types.go (TaskName and its constants) and helpers.go.
pub mod Lists
use terraform_operator.Prelude.{
  ℕ, String, Bool, true, false, List, [], ◌∷◌, ◌==◌, if◌then◌else◌, ℤ, pos, negsuc, ltb, nat_beq,
  length, not,
}

-- `type TaskName string`
abbrev pub TaskName : Type 0
TaskName = String

abbrev pub run_setup_delete : TaskName
run_setup_delete = "setup-delete"

abbrev pub run_pre_init_delete : TaskName
run_pre_init_delete = "preinit-delete"

abbrev pub run_init_delete : TaskName
run_init_delete = "init-delete"

abbrev pub run_post_init_delete : TaskName
run_post_init_delete = "postinit-delete"

abbrev pub run_pre_plan_delete : TaskName
run_pre_plan_delete = "preplan-delete"

abbrev pub run_plan_delete : TaskName
run_plan_delete = "plan-delete"

abbrev pub run_post_plan_delete : TaskName
run_post_plan_delete = "postplan-delete"

abbrev pub run_pre_apply_delete : TaskName
run_pre_apply_delete = "preapply-delete"

abbrev pub run_apply_delete : TaskName
run_apply_delete = "apply-delete"

abbrev pub run_post_apply_delete : TaskName
run_post_apply_delete = "postapply-delete"

abbrev pub run_setup : TaskName
run_setup = "setup"

abbrev pub run_pre_init : TaskName
run_pre_init = "preinit"

abbrev pub run_init : TaskName
run_init = "init"

abbrev pub run_post_init : TaskName
run_post_init = "postinit"

abbrev pub run_pre_plan : TaskName
run_pre_plan = "preplan"

abbrev pub run_plan : TaskName
run_plan = "plan"

abbrev pub run_post_plan : TaskName
run_post_plan = "postplan"

abbrev pub run_pre_apply : TaskName
run_pre_apply = "preapply"

abbrev pub run_apply : TaskName
run_apply = "apply"

abbrev pub run_post_apply : TaskName
run_post_apply = "postapply"

abbrev pub run_nil : TaskName
run_nil = ""

-- The `switch` of `TaskName.ID`, a case a line: the first constant that equals the task decides.
abbrev task_ids : List (TaskName × ℤ)
task_ids =
    (run_nil, negsuc 0)
    ∷ (run_setup, pos 1)
    ∷ (run_pre_init, pos 2)
    ∷ (run_init, pos 3)
    ∷ (run_post_init, pos 4)
    ∷ (run_pre_plan, pos 5)
    ∷ (run_plan, pos 6)
    ∷ (run_post_plan, pos 7)
    ∷ (run_pre_apply, pos 8)
    ∷ (run_apply, pos 9)
    ∷ (run_post_apply, pos 10)
    ∷ (run_setup_delete, pos 101)
    ∷ (run_pre_init_delete, pos 102)
    ∷ (run_init_delete, pos 103)
    ∷ (run_post_init_delete, pos 104)
    ∷ (run_pre_plan_delete, pos 105)
    ∷ (run_plan_delete, pos 106)
    ∷ (run_post_plan_delete, pos 107)
    ∷ (run_pre_apply_delete, pos 108)
    ∷ (run_apply_delete, pos 109)
    ∷ (run_post_apply_delete, pos 110)
    ∷ []

switch_id : List (TaskName × ℤ) → TaskName → ℤ
switch_id [] t = negsuc 1
switch_id ((constant, i) ∷ cases) t = if t == constant then i else switch_id cases t

unfoldable pub id : TaskName → ℤ
unfolding switch_id
id t = switch_id task_ids t

unfoldable pub list_contains_task : List TaskName → TaskName → Bool
list_contains_task [] item = false
list_contains_task (i ∷ tasks) item = if i == item then true else list_contains_task tasks item

-- The loop of `TaskListsAreEqual`; the lists have one length, so the ends come together.
same_tasks : List TaskName → List TaskName → Bool
same_tasks [] _ = true
same_tasks (t ∷ l1) [] = false
same_tasks (t ∷ l1) (u ∷ l2) = if not (t == u) then false else same_tasks l1 l2

unfoldable pub task_lists_are_equal : List TaskName → List TaskName → Bool
unfolding same_tasks
task_lists_are_equal l1 l2 =
    if not (nat_beq (length l1) (length l2)) then false else same_tasks l1 l2
