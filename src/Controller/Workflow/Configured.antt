-- ===== src/Controller/Workflow/Configured.antt =====
-- Which tasks `getConfiguredTasks` returns.
use terraform_operator.Prelude.{
  ◌==◌, ◌++◌, if◌then◌else◌, Bool, List, [], ◌∷◌, ◌≡◌, arith, eq_iff, ◌∙◌, ◌||◌, ◌&&◌, not, false,
}
use terraform_operator.Api.Task.{TaskName, list_contains_task}
use terraform_operator.Api.Task.Lists.{list_contains_task-append}
use terraform_operator.Api.Spec.{TaskOption}
use terraform_operator.Controller.Workflow.Tasks.{
  default_tasks, add_affected, add_options, get_configured_tasks,
}

-- Some option is for the task.
abbrev pub is_named : List TaskOption → TaskName → Bool
is_named [] t = false
is_named (option ∷ options) t = list_contains_task option.for t || is_named options t

list_contains_task-add_affected :
    (tasks for : List TaskName) (t : TaskName)
    → list_contains_task (add_affected tasks for) t
      ≡ (list_contains_task tasks t || (not (t == "*") && list_contains_task for t))
unfolding add_affected list_contains_task
list_contains_task-add_affected tasks [] t = ground arith
list_contains_task-add_affected tasks (a ∷ for) t =
    list_contains_task-add_affected
      (if a == "*"
        then tasks
        else if not (list_contains_task tasks a)
        then tasks ++ a ∷ []
        else tasks)
      for t
    ∙ ground
        (arith, eq_iff a "*", eq_iff t "*", eq_iff a t, list_contains_task-append tasks (a ∷ []) t)

list_contains_task-add_options :
    (tasks : List TaskName) (options : List TaskOption) (t : TaskName)
    → list_contains_task (add_options tasks options) t
      ≡ (list_contains_task tasks t || (not (t == "*") && is_named options t))
unfolding add_options
list_contains_task-add_options tasks [] t = ground arith
list_contains_task-add_options tasks (option ∷ options) t =
    list_contains_task-add_options (add_affected tasks option.for) options t
    ∙ ground (arith, list_contains_task-add_affected tasks option.for t)

-- The configured tasks are the eight default tasks and every task, but the wildcard, that some
-- option is for.
pub list_contains_task-get_configured_tasks :
    (options : List TaskOption) (t : TaskName)
    → list_contains_task (get_configured_tasks options) t
      ≡ (list_contains_task default_tasks t || (not (t == "*") && is_named options t))
unfolding get_configured_tasks
list_contains_task-get_configured_tasks options t =
    list_contains_task-add_options default_tasks options t
