-- ===== src/Controller/Workflow/Tasks.antt =====
-- The order of the tasks: getConfiguredTasks, nextTask and isTaskInterruptable of pkg/controllers/terraform_controller.go.
use terraform_operator.Prelude.{
  Bool, true, false, List, [], ◌∷◌, ◌++◌, ◌==◌, if◌then◌else◌, not, ◌&&◌,
}
use terraform_operator.Api.Task.{
  TaskName, list_contains_task, run_setup_delete, run_pre_init_delete, run_init_delete,
  run_post_init_delete, run_pre_plan_delete, run_plan_delete, run_post_plan_delete,
  run_pre_apply_delete, run_apply_delete, run_post_apply_delete, run_setup, run_pre_init, run_init,
  run_post_init, run_pre_plan, run_plan, run_post_plan, run_pre_apply, run_apply, run_post_apply,
  run_nil,
}
use terraform_operator.Api.Stage.{Interruptible, can_not_be_interrupt, can_be_interrupt}
use terraform_operator.Api.Spec.{TaskOption}

abbrev pub default_tasks : List TaskName
default_tasks =
    run_setup ∷ run_init ∷ run_plan ∷ run_apply ∷ run_setup_delete ∷ run_init_delete
    ∷ run_plan_delete ∷ run_apply_delete ∷ []

-- The inner loop of `getConfiguredTasks`, over one option's `For`.
unfoldable pub add_affected : List TaskName → List TaskName → List TaskName
add_affected tasks [] = tasks
add_affected tasks (affected ∷ for) =
    add_affected
      (if affected == "*"
        then tasks
        else if not (list_contains_task tasks affected)
        then tasks ++ affected ∷ []
        else tasks)
      for

unfoldable pub add_options : List TaskName → List TaskOption → List TaskName
unfolding add_affected
add_options tasks [] = tasks
add_options tasks (option ∷ options) = add_options (add_affected tasks option.for) options

unfoldable pub get_configured_tasks : List TaskOption → List TaskName
unfolding add_options
get_configured_tasks options = add_options default_tasks options

abbrev pub tasks_in_order : List TaskName
tasks_in_order =
    run_setup ∷ run_pre_init ∷ run_init ∷ run_post_init ∷ run_pre_plan ∷ run_plan ∷ run_post_plan
    ∷ run_pre_apply ∷ run_apply ∷ run_post_apply ∷ []

abbrev pub delete_tasks_in_order : List TaskName
delete_tasks_in_order =
    run_setup_delete ∷ run_pre_init_delete ∷ run_init_delete ∷ run_post_init_delete
    ∷ run_pre_plan_delete ∷ run_plan_delete ∷ run_post_plan_delete ∷ run_pre_apply_delete
    ∷ run_apply_delete ∷ run_post_apply_delete ∷ []

-- The loop of `nextTask`, with its variable `isUpNext`.
unfoldable pub scan_tasks : Bool → TaskName → List TaskName → List TaskName → TaskName
scan_tasks is_up_next current configured [] = run_nil
scan_tasks is_up_next current configured (task ∷ tasks) =
    let found = scan_tasks true current configured tasks in
    let later = scan_tasks is_up_next current configured tasks in
    if task == current
    then found
    else if is_up_next && list_contains_task configured task
    then task
    else later

unfoldable pub next_task : TaskName → List TaskName → TaskName
unfolding scan_tasks
next_task current configured =
    if list_contains_task tasks_in_order current
    then scan_tasks false current configured tasks_in_order
    else if list_contains_task delete_tasks_in_order current
    then scan_tasks false current configured delete_tasks_in_order
    else run_nil

abbrev pub uninterruptible_tasks : List TaskName
uninterruptible_tasks =
    run_init ∷ run_plan ∷ run_apply ∷ run_init_delete ∷ run_plan_delete ∷ run_apply_delete ∷ []

unfoldable pub is_task_interruptable : TaskName → Interruptible
is_task_interruptable task =
    if list_contains_task uninterruptible_tasks task then can_not_be_interrupt else can_be_interrupt
