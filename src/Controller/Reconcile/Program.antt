-- ===== src/Controller/Reconcile/Program.antt =====
-- Reconcile of pkg/controllers/terraform_controller.go as one program over the client. A goroutine
-- is run to its end where it is started. `now` and `suffix` are the clock and the random text.
use Prim.Native.String
use terraform_operator.Prelude.{
  ℕ, String, Bool, true, false, List, [], ◌∷◌, ◌==◌, if◌then◌else◌, Option, none, some, ◌&&◌,
  nat_beq, decimal, lookup, insert, delete,
}
use terraform_operator.Api.Task.{TaskName, run_nil}
use terraform_operator.Api.Spec.{StringMap, EnvFromSource}
use terraform_operator.Api.Stage.{Stage, deleted, running, phase_eq, state_in_progress}
use terraform_operator.Api.Resource.{Terraform}
use terraform_operator.Cluster.{Pod, pod}
use terraform_operator.Cluster.Effects.{
  Error, api, message, is_not_found, Result, ok, err, panic, M, pure, fail, crash, ◌>>=◌, ◌>>◌,
  attempt,
}
use terraform_operator.Cluster.Client.{
  Client, Got, got, failed, Condition, label_is, field_is, delete_object,
}
use terraform_operator.Controller.Workflow.{
  PodLookup, pod_found, pod_not_found, pod_error, Checked, panicked, checked, check_set_new_stage,
}
use terraform_operator.Controller.Options.{Inherited, TaskOptions, new_task_options}
use terraform_operator.Controller.Status.{get_terraform_resource, update, update_status_with_retry}
use terraform_operator.Controller.Finalizers.{
  load_secret, update_finalizer, update_secret_finalizer,
}
use terraform_operator.Controller.Cleanup.{
  remove_old_plan, background_reap_old_generation_pods, generation_label,
}
use terraform_operator.Controller.Run.{list_env_from_sources}
use terraform_operator.Controller.Packages.{Packages}
use terraform_operator.Controller.Setup.{setup_and_run}
use terraform_operator.Controller.NodeSelectors.{
  Cache, Settings, Workloads, cache_node_selectors, get_node_selectors_from_cache,
}
use terraform_operator.Controller.Reconcile.Start.{with_status, initialize, first_stage}
use terraform_operator.Controller.Reconcile.Marking.{prepare}
use terraform_operator.Controller.Reconcile.Adopting.{old_plan_reason}
use terraform_operator.Controller.Reconcile.Finish.{finish_workflow}
use terraform_operator.Controller.Reconcile.Watch.{
  current_pods, lose_pod, start_stage, observe_pod, deletes_pod,
}
use terraform_operator.Controller.Reconcile.Sidecars.{
  Chosen, Plugged, missing, chosen, choose_plugins, add_approval, run_deferred,
}

-- `reconcile.Result`: nothing more to do, `Requeue: true`, or `RequeueAfter` thirty seconds.
pub data Requeue : Type 0 where
  done again later : Requeue

abbrev pub lookup_of : {A : Type 0} → Got A → PodLookup
lookup_of (got a) = pod_found
lookup_of (failed e) = if is_not_found e then pod_not_found else pod_error

abbrev pub is_missing : Error → Bool
is_missing (api e) = is_not_found e
is_missing (message t) = false

-- The pods of the stage.
unfoldable pub stage_selector : Terraform → List Condition
stage_selector tf =
    let generation = decimal tf.status.stage.generation in
    field_is "metadata.generateName" (
      String.◌++◌ tf.status.pod_name_prefix (
        String.◌++◌ "-v"
          (String.◌++◌ generation (String.◌++◌ "-" (String.◌++◌ tf.status.stage.task_type "-")))))
    ∷ label_is generation_label generation
    ∷ []

module _ (c : Client) (p : Packages) (inherited : Inherited) (now : ℕ) where
  open c use {World}

  abbrev pub save : Terraform → M World (Unit {0})
  save tf = update_status_with_retry c tf tf.status

  -- A call whose error is only logged.
  abbrev pub only_logged : {A : Type 0} → M World A → M World (Unit {0})
  only_logged m = attempt m (λ e. pure tt) (λ _. pure tt)

  abbrev pub final_update : Option (Terraform × Bool) → M World (Unit {0})
  final_update none = crash
  final_update (some (tf, changed)) = update c tf

  unfoldable pub final_delete : Terraform → M World Requeue
  unfolding update_secret_finalizer update_finalizer update
  final_delete tf =
      update_secret_finalizer c p.finalizers tf >> final_update (update_finalizer tf) >> pure done

  unfoldable pub clean_old_plan : Terraform → Option String → M World (Unit {0})
  unfolding remove_old_plan
  clean_old_plan tf none = pure tt
  clean_old_plan tf (some reason) =
      only_logged (remove_old_plan p.md5 c tf.namespace tf.name reason tf.generation)

  -- A new stage was found.
  unfoldable pub move_on : Terraform → Stage → M World Requeue
  unfolding clean_old_plan old_plan_reason background_reap_old_generation_pods
      update_status_with_retry
  move_on tf stage =
      let tf' = with_status tf (record (tf.status) { stage = stage }) in
      clean_old_plan tf (old_plan_reason tf stage)
      >> only_logged (save tf')
      >> (if tf.spec.keep_latest_pods_only
          then only_logged (background_reap_old_generation_pods p.md5 c tf')
          else pure tt)
      >> pure done

  -- The data of the outputs secret, which is empty if it cannot be loaded, and not read if it is not
  -- wanted.
  unfoldable pub load_outputs : Terraform → TaskOptions → M World StringMap
  unfolding load_secret
  load_outputs tf r =
      if phase_eq tf.status.phase running && tf.spec.write_outputs_to_status
      then attempt (load_secret c r.outputs_secret_name r.namespace) (λ e. pure [])
          (λ s. pure s.data_map)
      else pure []

  abbrev pub save_if : Option Terraform → M World (Unit {0})
  save_if none = pure tt
  save_if (some tf) = save tf

  -- No task is left.
  unfoldable pub finish : Terraform → TaskOptions → M World Requeue
  unfolding load_outputs finish_workflow update_status_with_retry
  finish tf r = load_outputs tf r >>= λ contents. save_if (finish_workflow contents tf) >> pure done

  -- The pod of the stage was found.
  unfoldable pub observe : Terraform → Pod → M World Requeue
  unfolding observe_pod deletes_pod update_status_with_retry
  observe tf found =
      save (observe_pod now found tf)
      >> (if deletes_pod tf found then only_logged (delete_object c pod found) else pure tt)
      >> pure done

  -- Its pod was deleted.
  unfoldable pub lose : Terraform → M World Requeue
  unfolding lose_pod update_status_with_retry
  lose tf = attempt (save (lose_pod tf)) (λ e. pure again) (λ _. pure done)

  -- What is returned once the deferred calls have run, also after an error or a panic.
  unfoldable pub settle :
      List EnvFromSource → Chosen → Result (Requeue × Terraform) × World → Result Requeue × World
  unfolding run_deferred
  settle env s (ok (r, tf), w) = (run_deferred p env inherited c tf s.jobs >> pure r) w
  settle env s (err e, w) = (run_deferred p env inherited c s.tf s.jobs >> fail e) w
  settle env s (panic, w) = (run_deferred p env inherited c s.tf s.jobs >> crash) w

  -- The pod is created, and the status says so.
  unfoldable pub launch : Terraform → TaskOptions → M World (Requeue × Terraform)
  unfolding setup_and_run start_stage update_status_with_retry
  launch tf r =
      let tf' = start_stage tf in
      setup_and_run c p tf r >> attempt (save tf') (λ e. pure (again, tf')) (λ _. pure (done, tf'))

  unfoldable pub start_with : List EnvFromSource → TaskOptions → Plugged → M World Requeue
  unfolding settle launch
  start_with env r (missing s) w = settle env s (ok (again, s.tf), w)
  start_with env r (chosen s) w =
      settle env s (launch s.tf (record r { sidecar_plugins = s.pods }) w)

  abbrev pub approved : List EnvFromSource → (pod_type : TaskName) → TaskOptions → Plugged → Plugged
  approved env pod_type r (missing s) = missing s
  approved env pod_type r (chosen s) = add_approval p env inherited pod_type r s

  -- There is no pod of the stage yet.
  unfoldable pub start_pod : List EnvFromSource → Terraform → TaskOptions → M World Requeue
  unfolding start_with choose_plugins add_approval
  start_pod env tf r =
      let pod_type = tf.status.stage.task_type in
      start_with env r (
        approved env pod_type r (
          choose_plugins p env inherited pod_type tf.spec.plugins
            (record { tf = tf; names = []; pods = []; jobs = [] })))

  -- The first pod of the stage, if there is one.
  unfoldable pub with_pods :
      List EnvFromSource → Terraform → TaskOptions → List Pod → M World Requeue
  unfolding lose start_pod observe
  with_pods env tf r [] =
      if tf.status.stage.state == state_in_progress then lose tf else start_pod env tf r
  with_pods env tf r (found ∷ pods) = observe tf found

  -- An error of the list ends the reconcile, and is only logged.
  abbrev pub with_listed :
      List EnvFromSource → Terraform → TaskOptions → Got (List Pod) × World → Result Requeue × World
  with_listed env tf r (failed e, w) = (ok done, w)
  with_listed env tf r (got pods, w) =
      with_pods env tf r (current_pods tf.status.retry_timestamp pods) w

  unfoldable pub watch : List EnvFromSource → Terraform → TaskOptions → M World Requeue
  unfolding with_pods stage_selector current_pods
  watch env tf r w = with_listed env tf r (c.list_pods tf.namespace (stage_selector tf) w)

  -- The stage goes on.
  unfoldable pub work : Terraform → M World Requeue
  unfolding list_env_from_sources new_task_options finish watch
  work tf =
      let env = list_env_from_sources p.global_env tf in
      let (tf', r) =
        new_task_options p.md5 tf tf.status.stage.task_type tf.status.stage.generation env inherited
          p.require_approval_image in
      if tf.status.stage.task_type == run_nil then finish tf' r else watch env tf' r

  abbrev pub with_checked : Checked → M World Requeue
  with_checked panicked = crash
  with_checked (checked tf none) = work tf
  with_checked (checked tf (some stage)) = move_on tf stage

  -- The pod of a failed stage is looked up where the world stands; the read leaves it so.
  unfoldable pub choose_stage : Terraform → M World Requeue
  unfolding prepare check_set_new_stage work move_on
  choose_stage tf w =
      let (tf', retry) = prepare now tf in
      let get_pod = λ (namespace name : String). lookup_of (c.get pod namespace name w).0 in
      with_checked (check_set_new_stage get_pod now tf' retry) w

  unfoldable pub proceed : (suffix : String) → Terraform → M World Requeue
  unfolding initialize first_stage choose_stage update_status_with_retry
  proceed suffix tf =
      if tf.status.pod_name_prefix == ""
      then only_logged (save (initialize suffix tf)) >> pure done
      else if nat_beq tf.status.stage.generation 0
      then save (first_stage now tf) >> pure done
      else choose_stage tf

  abbrev pub after_finalizers : (suffix : String) → Option (Terraform × Bool) → M World Requeue
  after_finalizers suffix none = crash
  after_finalizers suffix (some (tf, true)) = update c tf >> pure done
  after_finalizers suffix (some (tf, false)) = proceed suffix tf

  unfoldable pub reconcile_resource : (suffix : String) → Terraform → M World Requeue
  unfolding final_delete update_finalizer proceed update
  reconcile_resource suffix tf =
      if phase_eq tf.status.phase deleted
      then final_delete tf
      else after_finalizers suffix (update_finalizer tf)

  -- A resource that is gone is no error.
  unfoldable pub read_and_reconcile : (namespace name suffix : String) → M World Requeue
  unfolding get_terraform_resource reconcile_resource
  read_and_reconcile namespace name suffix =
      attempt (get_terraform_resource c namespace name 3)
        (λ e. if is_missing e then pure done else fail e) (reconcile_resource suffix)

abbrev pub lock_key : (namespace name : String) → String
lock_key namespace name =
    String.◌++◌ namespace (String.◌++◌ "/" (String.◌++◌ name "-reconcile-lock"))

module _ (c : Client) (p : Packages) (s : Settings) (o : Workloads c.World) where
  open c use {World}

  -- The lock is held while the resource is worked on, and deleted by a deferred call in any case.
  abbrev pub holding_lock :
      (namespace name id suffix : String)
      → ℕ
      → Option String
      → Cache × World
      → (Result Requeue × World) × Cache
  holding_lock namespace name id suffix now (some owner) (cache, w) = ((ok later, w), cache)
  holding_lock namespace name id suffix now none (cache, w) =
      let key = lock_key namespace name in
      let held = record cache { locks = insert key id cache.locks } in
      let inherited = get_node_selectors_from_cache s held in
      (
        read_and_reconcile c p inherited now namespace name suffix w,
        record held { locks = delete key held.locks },
      )

  unfoldable pub reconcile :
      (namespace name id suffix : String) → ℕ → Cache → World → (Result Requeue × World) × Cache
  unfolding cache_node_selectors read_and_reconcile get_node_selectors_from_cache
  reconcile namespace name id suffix now cache w =
      let (cache', w') = cache_node_selectors s o cache w in
      holding_lock namespace name id suffix now (lookup (lock_key namespace name) cache'.locks)
        (cache', w')
