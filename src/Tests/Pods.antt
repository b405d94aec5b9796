-- ===== src/Tests/Pods.antt =====
-- The pods of tasks, and a workflow from its first stage to its end, at concrete inputs.
use terraform_operator.Controller.Reconcile.Passing.{IsSteady}
use terraform_operator.Controller.Cleanup.Selectors.{meets_all, old_generation_selector_picks}
use terraform_operator.Controller.Reconcile.Restart.{check_set_new_stage-restart}
use terraform_operator.Prelude.{
  ◌≢◌, true, not, ◌==◌, eq_iff, ℕ, String, false, List, [], ◌∷◌, ◌≡◌, ◌↔◌, inl, refl, arith, some,
  none, All, Memᴰ, lookup, decimal,
}
use terraform_operator.Utils.{auto_hash_labeler, list_contains_str}
use terraform_operator.Api.Task.{run_post_init, run_setup, run_plan, run_apply, run_nil}
use terraform_operator.Api.Stage.{
  state_failed, Stage, state_initializing, initializing, running, completed, unix,
}
use terraform_operator.Api.Spec.{Volume, VolumeMount, VolumeSource}
use terraform_operator.Api.Resource.{Terraform}
use terraform_operator.Cluster.{pod, Pod, Container, pod_succeeded, other_phase}
use terraform_operator.Cluster.Client.{Condition}
use terraform_operator.Cluster.Effects.{api_result}
use terraform_operator.Controller.Options.{TaskOptions, Inherited}
use terraform_operator.Controller.PodTemplate.{
  generate_pod, generated, pod_of, validate_volume, task_container, pod_labels,
}
use terraform_operator.Controller.PodTemplate.Volumes.{IsUsable, IsMounted, validate_volume_iff}
use terraform_operator.Controller.PodTemplate.Contents.{generate_pod_mounts}
use terraform_operator.Controller.PodTemplate.Labels.{options_of, pod_labels-new_task_options}
use terraform_operator.Controller.Cleanup.{
  remove_old_plan, old_generation_selector, generation_label, name_label, instance_label,
}
use terraform_operator.Controller.Cleanup.OldPlan.{picks, Goes, remove_old_plan-picks}
use terraform_operator.Controller.Objects.{generate_job}
use terraform_operator.Controller.Objects.Jobs.{generate_job_panic}
use terraform_operator.Controller.Workflow.{
  pod_not_found, next_task, get_configured_tasks, PodLookup, pod_found, checked,
  check_set_new_stage, tasks_in_order,
}
use terraform_operator.Controller.Reconcile.{
  old_plan_reason, observe_pod, pass_stages, finish_workflow,
}
use terraform_operator.Controller.Reconcile.Progress.{
  pass_stages_end, check_set_new_stage-running_pod,
}
use terraform_operator.Tests.Fixtures.{site, stage_of, plain_options}
use terraform_operator.Tests.Store.{store, blank_meta, blank_spec}

abbrev cache : Volume
cache = record { name = "cache"; source = VolumeSource.config_map "cache" }

abbrev cache_mount : VolumeMount
cache_mount = record { name = "cache"; mount_path = "/cache"; read_only = false }

abbrev cached : TaskOptions
cached = record plain_options { volumes = cache ∷ []; volume_mounts = cache_mount ∷ [] }

abbrev unmounted : TaskOptions
unmounted = record plain_options { volumes = cache ∷ [] }

validate_volume_example : (validate_volume run_plan (cache ∷ []) (cache_mount ∷ []) ≡ none) ↔ (
    All (IsUsable (cache_mount ∷ [])) (cache ∷ [])
    × All (IsMounted (cache ∷ [])) (cache_mount ∷ []))
validate_volume_example = validate_volume_iff run_plan (cache ∷ []) (cache_mount ∷ [])

generate_job_example :
    (generate_job unmounted ≡ none)
    ↔ ¬ (
        All (IsUsable unmounted.volume_mounts) unmounted.volumes
        × All (IsMounted unmounted.volumes) unmounted.volume_mounts)
generate_job_example = generate_job_panic unmounted

cached_pod : generate_pod cached ≡ generated (pod_of cached)
unfolding generate_pod list_contains_str
cached_pod = refl

mounts_example :
    (more : List Container) × ((pod_of cached).spec.containers ≡ task_container cached ∷ more)
    × All (IsMounted (pod_of cached).spec.volumes) (task_container cached).volume_mounts
mounts_example = generate_pod_mounts cached (pod_of cached) cached_pod

abbrev some_hash : String → String
some_hash s = "0123456789abcdef0123456789abcdef"

abbrev anywhere : Inherited
anywhere = record { affinity = none; node_selector = []; tolerations = [] }

abbrev starting : Terraform
starting = site initializing (stage_of 2 state_initializing run_setup)

labels_example :
    (lookup generation_label
        (pod_labels (options_of some_hash starting run_plan 2 [] anywhere "image"))
      ≡ some (decimal 2))
    × (lookup name_label (pod_labels (options_of some_hash starting run_plan 2 [] anywhere "image"))
        ≡ some (auto_hash_labeler some_hash "site"))
    × (lookup instance_label
          (pod_labels (options_of some_hash starting run_plan 2 [] anywhere "image"))
        ≡ some run_plan)
labels_example = pod_labels-new_task_options some_hash starting run_plan 2 [] anywhere "image"

abbrev pub no_pods : String → String → PodLookup
no_pods ns n = pod_found

abbrev pub done : Pod
done = record {
  meta = blank_meta "apps" "site-pod";
  uid = "p1";
  creation_timestamp = unix 3;
  spec = blank_spec;
  phase = pod_succeeded;
}

abbrev ten_pods : List (ℕ × Pod)
ten_pods =
    (1, done)
    ∷ (2, done)
    ∷ (3, done)
    ∷ (4, done)
    ∷ (5, done)
    ∷ (6, done)
    ∷ (7, done)
    ∷ (8, done)
    ∷ (9, done)
    ∷ (10, done)
    ∷ []

ten_succeed : All (λ (e : ℕ × Pod). e.1.phase ≡ pod_succeeded) ten_pods
ten_succeed = (refl, (refl, (refl, (refl, (refl, (refl, (refl, (refl, (refl, (refl, tt))))))))))

starting-IsSteady : IsSteady starting
unfolding lookup
starting-IsSteady = record { no_retry = refl; no_deletion = inl refl }

workflow_example :
    (tf' tf'' : Terraform) × (pass_stages no_pods ten_pods starting ≡ some tf')
    × (tf'.status.stage.task_type ≡ run_nil)
    × (finish_workflow [] tf' ≡ some tf'')
    × (tf''.status.phase ≡ completed)
workflow_example =
    pass_stages_end no_pods tasks_in_order starting ten_pods completed [] (inl refl)
      (Memᴰ.head refl) refl starting-IsSteady refl ten_succeed (omega arith)

abbrev live : Pod
live = record done { phase = other_phase "Running" }

abbrev changed : Terraform
changed = site running (stage_of 1 "in-progress" run_apply)

running_pod_example :
    (stage : Stage) × (tf' : Terraform) × (check_set_new_stage no_pods 9
        (observe_pod 8 live changed)
        false
      ≡ checked tf' (some stage))
    × (stage.task_type ≡ run_setup)
    × (stage.state ≡ state_initializing)
running_pod_example =
    check_set_new_stage-running_pod no_pods 8 9 live changed refl (λ e. absurd (omega arith)) refl

old_generation_example :
    meets_all
      (pod_labels (options_of some_hash starting run_plan 1 [] anywhere "image"))
      (old_generation_selector some_hash starting)
    ≡ not (decimal 1 == decimal 2)
old_generation_example =
    old_generation_selector_picks some_hash starting run_plan 1 [] anywhere "image" starting refl

old_plan_example :
    (selector : List Condition) × (remove_old_plan some_hash store "apps" "site"
        "RESTARTED_WORKFLOW" 2 []
      ≡ api_result (store.delete_all_of pod "apps" selector []))
    × ((picks
            (pod_labels (options_of some_hash starting run_plan 2 [] anywhere "image"))
            "Failed"
            selector
          ≡ true)
        ↔ ((◌≢◌ {A = String} "Failed" "Running") × Goes "RESTARTED_WORKFLOW" run_plan))
old_plan_example =
    remove_old_plan-picks some_hash store starting run_plan 2 [] anywhere "image" "Failed"
      "RESTARTED_WORKFLOW" []

abbrev broken : Terraform
broken = site running (stage_of 2 state_failed run_apply)

abbrev lost : String → String → PodLookup
lost ns n = pod_not_found

-- The pod of the setup task goes with the old plan, unless it runs.
restart_example :
    (stage : Stage) × (selector : List Condition) × (check_set_new_stage lost 9 broken false
      ≡ checked broken (some stage))
    × (stage.task_type ≡ next_task run_post_init (get_configured_tasks broken.spec.task_options))
    × (stage.reason ≡ "RESTARTED_WORKFLOW")
    × (old_plan_reason broken stage ≡ some broken.status.stage.reason)
    × (remove_old_plan some_hash store "apps" "site" broken.status.stage.reason 2 []
        ≡ api_result (store.delete_all_of pod "apps" selector []))
    × ((picks
            (pod_labels (options_of some_hash broken run_setup 2 [] anywhere "image"))
            "Succeeded"
            selector
          ≡ true)
        ↔ (◌≢◌ {A = String} "Succeeded" "Running"))
restart_example =
    check_set_new_stage-restart lost 9 broken refl refl refl refl some_hash store [] run_setup []
      anywhere "image" "Succeeded" (λ e. ground (arith, eq_iff "" "RESTARTED_WORKFLOW"))
      (λ e. ground (arith, eq_iff "" "RESTARTED_DELETE_WORKFLOW"))
