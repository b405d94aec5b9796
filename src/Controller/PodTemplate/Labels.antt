-- ===== src/Controller/PodTemplate/Labels.antt =====
-- The labels by which the operator finds its pods again.
use terraform_operator.Prelude.{
  ◌==◌, ℕ, String, List, ◌≡◌, some, lookup, insert, insert_all, lookup-insert, Bool-cases, inl, inr,
  if◌then◌else◌, decimal, int_beq, negsuc,
}
use terraform_operator.Utils.{auto_hash_labeler}
use terraform_operator.Api.Task.{TaskName, id}
use terraform_operator.Api.Spec.{StringMap, EnvFromSource}
use terraform_operator.Api.Resource.{Terraform}
use terraform_operator.Controller.Options.{
  TaskOptions, Inherited, make_resource_labels, new_task_options,
}
use terraform_operator.Controller.PodTemplate.Template.{pod_labels}
use terraform_operator.Controller.Cleanup.{generation_label, name_label, instance_label}

module _ (md5 : String → String) (generation : ℕ) (resource_name prefixed_name version : String)
    (task : TaskName) (labels : StringMap) where
  abbrev all_labels : StringMap
  all_labels = insert instance_label task (
      insert_all (make_resource_labels md5 generation resource_name prefixed_name version task)
        labels)

  all_labels-lookup :
      (lookup generation_label all_labels ≡ some (decimal generation))
      × (lookup name_label all_labels ≡ some (auto_hash_labeler md5 resource_name))
      × (lookup instance_label all_labels ≡ some task)
  unfolding make_resource_labels insert_all
  all_labels-lookup = elim (Bool-cases (int_beq (id task) (negsuc 1))) [
    | inl e ↦
        rw e (unfold insert in ((simp lookup-insert), (simp lookup-insert), (simp lookup-insert)))
    | inr e ↦ rw e ((simp lookup-insert), (simp lookup-insert), (simp lookup-insert))
  ]

module _ (md5 : String → String) (tf : Terraform) (task : TaskName) (generation : ℕ)
    (global_env_from : List EnvFromSource) (inherited : Inherited) (approval : String) where
  abbrev pub options_of : TaskOptions
  options_of = (new_task_options md5 tf task generation global_env_from inherited approval).1

  -- Whatever labels the options of the task ask for, its pod carries the generation, the label of
  -- the resource's name and the task by which the operator looks for the pods of old generations.
  pub pod_labels-new_task_options :
      (lookup generation_label (pod_labels options_of) ≡ some (decimal generation))
      × (lookup name_label (pod_labels options_of) ≡ some (auto_hash_labeler md5 tf.name))
      × (lookup instance_label (pod_labels options_of) ≡ some task)
  unfolding pod_labels new_task_options
  pod_labels-new_task_options =
      all_labels-lookup md5 generation tf.name tf.status.pod_name_prefix
        (if tf.spec.terraform_version == "" then "latest" else tf.spec.terraform_version) task
        options_of.labels
