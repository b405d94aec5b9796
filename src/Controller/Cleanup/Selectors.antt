-- ===== src/Controller/Cleanup/Selectors.antt =====
-- Which pods the selectors of removeOldPlan and backgroundReapOldGenerationPods pick.
use terraform_operator.Prelude.{
  ℕ, String, Bool, true, false, List, [], ◌∷◌, ◌==◌, ◌≡◌, refl, arith, eq_iff, eq_refl, Option,
  none, some, not, ◌&&◌, lookup, decimal,
}
use terraform_operator.Utils.{auto_hash_labeler}
use terraform_operator.Api.Task.{TaskName, list_contains_task}
use terraform_operator.Api.Spec.{StringMap, EnvFromSource}
use terraform_operator.Api.Resource.{Terraform}
use terraform_operator.Cluster.Client.{
  Condition, label_exists, label_is, label_is_not, field_is, field_is_not,
}
use terraform_operator.Controller.Options.{Inherited}
use terraform_operator.Controller.PodTemplate.{pod_labels}
use terraform_operator.Controller.PodTemplate.Labels.{options_of, pod_labels-new_task_options}
use terraform_operator.Controller.Cleanup.{
  instance_label, kept_tasks, instances_but, old_plan_selector, old_generation_selector,
}

abbrev is_there : Option String → Bool
is_there none = false
is_there (some v) = true

abbrev has_value : Option String → String → Bool
has_value none v = false
has_value (some u) v = u == v

-- The API server's reading of a label condition. A condition on a field is not looked at here.
abbrev pub meets : StringMap → Condition → Bool
meets labels (label_exists key) = is_there (lookup key labels)
meets labels (label_is key v) = has_value (lookup key labels) v
meets labels (label_is_not key v) = not (has_value (lookup key labels) v)
meets labels (field_is field v) = true
meets labels (field_is_not field v) = true

abbrev pub meets_all : StringMap → List Condition → Bool
meets_all labels [] = true
meets_all labels (c ∷ conditions) = meets labels c && meets_all labels conditions

meets-instances_but :
    (labels : StringMap) (task : TaskName) (tasks : List TaskName)
    → lookup instance_label labels ≡ some task
    → meets_all labels (instances_but tasks) ≡ not (list_contains_task tasks task)
unfolding instances_but list_contains_task
meets-instances_but labels task [] h = refl
meets-instances_but labels task (t ∷ tasks) h =
    ground (arith, meets-instances_but labels task tasks h, eq_iff t task, eq_iff task t)

module _ (md5 : String → String) (tf : Terraform) (task : TaskName) (generation : ℕ)
    (global_env_from : List EnvFromSource) (inherited : Inherited) (approval : String) where
  abbrev labels : StringMap
  labels = pod_labels (options_of md5 tf task generation global_env_from inherited approval)

  -- The reaper's selector picks a pod of the resource exactly if its generation reads otherwise
  -- than the current one: no pod of the current generation, and all of the others.
  pub old_generation_selector_picks :
      (current : Terraform)
      → current.name ≡ tf.name
      → meets_all labels (old_generation_selector md5 current)
        ≡ not (decimal generation == decimal current.generation)
  unfolding old_generation_selector
  old_generation_selector_picks current e =
      let (g, n, i) =
        pod_labels-new_task_options md5 tf task generation global_env_from inherited approval in
      rw (g, n, e, eq_refl (auto_hash_labeler md5 tf.name)) (ground arith)

  -- The labels of a pod of the generation, against the selector of the old plan.
  pub old_plan_selector_picks :
      (reason : String)
      → meets_all labels (old_plan_selector md5 tf.name reason generation)
        ≡ not (list_contains_task (kept_tasks reason) task)
  unfolding old_plan_selector
  old_plan_selector_picks reason =
      let (g, n, i) =
        pod_labels-new_task_options md5 tf task generation global_env_from inherited approval in
      let rest = meets-instances_but labels task (kept_tasks reason) i in
      rw (g, n, i, eq_refl (auto_hash_labeler md5 tf.name), eq_refl (decimal generation)) rest
