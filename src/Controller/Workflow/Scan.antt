-- ===== src/Controller/Workflow/Scan.antt =====
-- The loop of `nextTask` over an order of tasks without repetition.
use terraform_operator.Prelude.{
  true, false, List, [], ◌∷◌, ◌++◌, ◌≡◌, ◌≢◌, refl, ap, ◌∙◌, arith, eq_iff, eq_refl, text_cases,
  inl, inr, All, Bool-cases,
}
use terraform_operator.Api.Task.{TaskName, list_contains_task, run_nil}
use terraform_operator.Controller.Workflow.Tasks.{scan_tasks}

-- No task of the list is configured, or is `c`.
abbrev pub NoneConfigured : List TaskName → List TaskName → Type 0
NoneConfigured configured tasks = All (λ t. list_contains_task configured t ≡ false) tasks

abbrev pub Avoids : TaskName → List TaskName → Type 0
Avoids c tasks = All (λ t. t ≢ c) tasks

-- `next` is what follows `current` in `order`: the first configured task behind it, or nothing.
pub data IsNext (order : List TaskName) (current : TaskName) (configured : List TaskName)
    (next : TaskName) : Type 0 where
  finished :
      (before after : List TaskName)
      → order ≡ before ++ current ∷ after
      → NoneConfigured configured after
      → next ≡ run_nil
      → IsNext order current configured next
  advances :
      (before skipped after : List TaskName)
      → order ≡ before ++ current ∷ (skipped ++ next ∷ after)
      → NoneConfigured configured skipped
      → list_contains_task configured next ≡ true
      → IsNext order current configured next

-- What a scan finds behind the current task.
data FirstConfigured (configured tasks : List TaskName) (next : TaskName) : Type 0 where
  none_left :
      NoneConfigured configured tasks → next ≡ run_nil → FirstConfigured configured tasks next
  first :
      (skipped after : List TaskName)
      → tasks ≡ skipped ++ next ∷ after
      → NoneConfigured configured skipped
      → list_contains_task configured next ≡ true
      → FirstConfigured configured tasks next

module _ (current : TaskName) (configured : List TaskName) where
  FirstConfigured-skip :
      {t next : TaskName} {tasks : List TaskName}
      → list_contains_task configured t ≡ false
      → FirstConfigured configured tasks next
      → FirstConfigured configured (t ∷ tasks) next
  FirstConfigured-skip {t} c (none_left none e) = none_left (c, none) e
  FirstConfigured-skip {t} c (first skipped after e none found) =
      first (t ∷ skipped) after (ap (λ l. t ∷ l) e) (c, none) found

  scan_tasks-FirstConfigured :
      (tasks : List TaskName)
      → Avoids current tasks
      → FirstConfigured configured tasks (scan_tasks true current configured tasks)
  unfolding scan_tasks
  scan_tasks-FirstConfigured [] h = none_left tt refl
  scan_tasks-FirstConfigured (t ∷ tasks) (n, h) = elim (text_cases t current) [
    | inl (e, _) ↦ absurd (n e)
    | inr (_, e) ↦ elim (Bool-cases (list_contains_task configured t)) [
      | inl c ↦ rw (e, c) (first [] tasks refl tt c)
      | inr c ↦ rw (e, c) (FirstConfigured-skip c (scan_tasks-FirstConfigured tasks h))
    ]
  ]

  scan_tasks_from :
      (before after : List TaskName)
      → Avoids current before
      → scan_tasks false current configured (before ++ current ∷ after)
        ≡ scan_tasks true current configured after
  unfolding scan_tasks
  scan_tasks_from [] after h = rw (eq_refl current)
  scan_tasks_from (t ∷ before) after (n, h) =
      ground (arith, eq_iff t current, scan_tasks_from before after h)

  pub scan_tasks-IsNext :
      (order before after : List TaskName)
      → order ≡ before ++ current ∷ after
      → Avoids current before
      → Avoids current after
      → IsNext order current configured (scan_tasks false current configured order)
  scan_tasks-IsNext order before after e hb ha =
      IsNext_of (scan_tasks-FirstConfigured after ha)
        (ap (scan_tasks false current configured) e ∙ scan_tasks_from before after hb)
    where
      IsNext_of :
          {found next : TaskName}
          → FirstConfigured configured after found
          → next ≡ found
          → IsNext order current configured next
      IsNext_of (none_left none nil) p = finished before after e none (p ∙ nil)
      IsNext_of (first skipped rest split none c) p =
          rw p (advances before skipped rest (e ∙ ap (λ l. before ++ current ∷ l) split) none c)
