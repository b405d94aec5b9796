-- ===== src/Controller/Cleanup.antt =====
-- Deleting what older attempts and generations left: removeOldPlan, backgroundReapOldGenerationPods
-- and reapPlugins of pkg/controllers/terraform_controller.go. A goroutine that waits and runs the
-- function again is a further attempt; the pauses are left out.
pub mod Moving
pub mod Selectors
pub mod OldPlan
use terraform_operator.Prelude.{
  ℕ, zero, suc, String, List, [], ◌∷◌, ◌++◌, ◌==◌, if◌then◌else◌, decimal,
}
use terraform_operator.Utils.{auto_hash_labeler}
use terraform_operator.Api.Task.{
  TaskName, run_setup, run_pre_init, run_init, run_post_init, run_setup_delete, run_pre_init_delete,
  run_init_delete, run_post_init_delete,
}
use terraform_operator.Api.Resource.{Terraform}
use terraform_operator.Cluster.{
  Kind, config_map, secret, service_account, role, role_binding, pod, job, Pod,
}
use terraform_operator.Cluster.Effects.{
  Error, api, Result, ok, err, M, pure, ◌>>=◌, ◌>>◌, attempt, api_result,
}
use terraform_operator.Cluster.Client.{
  Client, Got, got, failed, Condition, label_exists, label_is, label_is_not, field_is_not,
}
use terraform_operator.Controller.Status.{get_terraform_resource}

abbrev pub generation_label : String
generation_label = "terraforms.tf.galleybytes.com/generation"

abbrev pub name_label : String
name_label = "terraforms.tf.galleybytes.com/resourceName"

abbrev pub instance_label : String
instance_label = "app.kubernetes.io/instance"

-- The tasks whose pods `removeOldPlan` keeps.
unfoldable pub kept_tasks : (reason : String) → List TaskName
kept_tasks reason =
    if reason == "RESTARTED_WORKFLOW"
    then run_setup ∷ run_pre_init ∷ run_init ∷ run_post_init ∷ []
    else if reason == "RESTARTED_DELETE_WORKFLOW"
    then run_setup_delete ∷ run_pre_init_delete ∷ run_init_delete ∷ run_post_init_delete ∷ []
    else []

instances_but : List TaskName → List Condition
instances_but [] = []
instances_but (t ∷ tasks) = label_is_not instance_label t ∷ instances_but tasks

unfoldable pub old_plan_selector : (String → String) → (name reason : String) → ℕ → List Condition
unfolding kept_tasks instances_but
old_plan_selector md5 name reason generation =
    label_is generation_label (decimal generation)
    ∷ label_is name_label (auto_hash_labeler md5 name)
    ∷ label_exists instance_label
    ∷ instances_but (kept_tasks reason)

-- What is left of older generations of the resource.
unfoldable pub old_generation_selector : (String → String) → Terraform → List Condition
old_generation_selector md5 tf =
    label_exists generation_label
    ∷ label_is_not generation_label (decimal tf.generation)
    ∷ label_exists name_label
    ∷ label_is name_label (auto_hash_labeler md5 tf.name)
    ∷ []

unfoldable pub old_plugin_selector : (String → String) → Terraform → List Condition
unfolding old_generation_selector
old_plugin_selector md5 tf =
    label_is "terraforms.tf.galleybytes.com/isPlugin" "true" ∷ old_generation_selector md5 tf

abbrev pub not_running : Condition
not_running = field_is_not "status.phase" "Running"

-- How a cleanup ended; the reasons for an early end are only logged.
pub data Reaped : Type 0 where
  reaped gave_up stopped : Reaped

module _ (md5 : String → String) (c : Client) where
  open c use {World}

  abbrev delete_all : Kind → (namespace : String) → List Condition → M World (Unit {0})
  delete_all kind namespace selector w = api_result (c.delete_all_of kind namespace selector w)

  abbrev listed : Got (List Pod) × World → Result (List Pod) × World
  listed (got pods, w) = (ok pods, w)
  listed (failed e, w) = (err (api e), w)

  abbrev list_all : (namespace : String) → List Condition → M World (List Pod)
  list_all namespace selector w = listed (c.list_pods namespace selector w)

  unfoldable pub remove_old_plan : (namespace name reason : String) → ℕ → M World (Unit {0})
  unfolding old_plan_selector
  remove_old_plan namespace name reason generation =
      delete_all pod namespace (old_plan_selector md5 name reason generation ++ not_running ∷ [])

  -- All that an old generation had but its pods; the first error ends it.
  reap_rest : (namespace : String) → List Condition → M World (Unit {0})
  reap_rest namespace selector = do
    delete_all config_map namespace selector
    delete_all secret namespace selector
    delete_all role namespace selector
    delete_all role_binding namespace selector
    delete_all service_account namespace selector

  abbrev stop : Error → M World Reaped
  stop e = pure stopped

  -- One attempt: the pods that do not run are deleted, and the rest once no pod is left. The
  -- continuation is the next attempt.
  reap_attempt : M World Reaped → Terraform → M World Reaped
  unfolding reap_rest old_generation_selector
  reap_attempt next tf =
      let selector = old_generation_selector md5 tf in
      attempt (delete_all pod tf.namespace (selector ++ not_running ∷ [])) stop λ _.
        attempt (list_all tf.namespace selector) stop λ pods. elim pods [
          | [] ↦ attempt (reap_rest tf.namespace selector) stop (λ _. pure reaped)
          | _ ∷ _ ↦ next
        ]

  -- `attempts` are left: 21 at first, from attempt 0 to attempt 20. Each reads the resource anew.
  background_reap : ℕ → (namespace name : String) → M World Reaped
  unfolding reap_attempt get_terraform_resource
  background_reap zero namespace name = pure gave_up
  background_reap (suc attempts) namespace name =
      let next = background_reap attempts namespace name in
      attempt (get_terraform_resource c namespace name 3) stop (reap_attempt next)

  unfoldable pub background_reap_old_generation_pods : Terraform → M World Reaped
  unfolding background_reap
  background_reap_old_generation_pods tf = background_reap 21 tf.namespace tf.name

  -- An error is logged, and the function goes on.
  abbrev logged : {A : Type 0} → A → M World A → M World A
  logged default m = attempt m (λ e. pure default) pure

  reap_plugins_attempt : M World Reaped → Terraform → M World Reaped
  unfolding old_plugin_selector
  reap_plugins_attempt next tf =
      let selector = old_plugin_selector md5 tf in
      do
        logged tt (delete_all job tf.namespace selector)
        logged tt (delete_all pod tf.namespace selector)
        pods ← logged [] (list_all tf.namespace selector)
        elim pods [ [] ↦ pure reaped | _ ∷ _ ↦ next ]

  reap_plugins_loop : ℕ → (namespace name : String) → M World Reaped
  unfolding reap_plugins_attempt get_terraform_resource
  reap_plugins_loop zero namespace name = pure gave_up
  reap_plugins_loop (suc attempts) namespace name =
      let next = reap_plugins_loop attempts namespace name in
      attempt (get_terraform_resource c namespace name 3) stop (reap_plugins_attempt next)

  unfoldable pub reap_plugins : Terraform → M World Reaped
  unfolding reap_plugins_loop
  reap_plugins tf = reap_plugins_loop 21 tf.namespace tf.name
