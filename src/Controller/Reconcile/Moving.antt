-- ===== src/Controller/Reconcile/Moving.antt =====
-- What a reconcile of pkg/controllers/terraform_controller.go does to the world at most, apart from
-- the update of the resource itself.
use terraform_operator.Prelude.{
  ℕ, String, List, [], ◌∷◌, ◌==◌, if◌then◌else◌, Option, none, some, ◌&&◌, nat_beq,
}
use terraform_operator.Api.Task.{TaskName, run_nil}
use terraform_operator.Api.Spec.{EnvFromSource, Plugin}
use terraform_operator.Api.Stage.{Stage, running, phase_eq, state_in_progress}
use terraform_operator.Api.Resource.{Terraform}
use terraform_operator.Cluster.{Pod, pod}
use terraform_operator.Cluster.Effects.{Result, ok, err, panic, pure, fail, crash, ◌>>◌}
use terraform_operator.Cluster.Client.{Client, Got, got, failed, delete_object}
use terraform_operator.Cluster.Moving.{
  Moves, Allows, Moves-pure, Moves-fail, Moves-crash, Moves-bind, Moves-then, Moves-attempt,
  Moves-ignored, Moves-if, delete_object-Moves,
}
use terraform_operator.Controller.Options.{Inherited, TaskOptions, new_task_options}
use terraform_operator.Controller.Workflow.{Checked, panicked, checked, check_set_new_stage}
use terraform_operator.Controller.Status.Moving.{update_status_with_retry-Moves}
use terraform_operator.Controller.Finalizers.{load_secret}
use terraform_operator.Controller.Finalizers.Moving.{load_secret-Moves}
use terraform_operator.Controller.Cleanup.{remove_old_plan, background_reap_old_generation_pods}
use terraform_operator.Controller.Cleanup.Moving.{
  remove_old_plan-Moves, background_reap_old_generation_pods-Moves,
}
use terraform_operator.Controller.Plugins.{create_plugin_job, plugin_started}
use terraform_operator.Controller.Plugins.Moving.{create_plugin_job-Moves}
use terraform_operator.Controller.Packages.{Packages}
use terraform_operator.Controller.Run.{list_env_from_sources}
use terraform_operator.Controller.Setup.{setup_and_run}
use terraform_operator.Controller.Setup.Moving.{setup_and_run-Moves}
use terraform_operator.Controller.Reconcile.Start.{with_status, initialize, first_stage}
use terraform_operator.Controller.Reconcile.Marking.{prepare}
use terraform_operator.Controller.Reconcile.Adopting.{old_plan_reason}
use terraform_operator.Controller.Reconcile.Finish.{finish_workflow}
use terraform_operator.Controller.Reconcile.Watch.{
  current_pods, lose_pod, start_stage, observe_pod, deletes_pod,
}
use terraform_operator.Controller.Reconcile.Sidecars.{
  Chosen, Plugged, missing, chosen, choose_plugins, after_options, run_deferred,
}
use terraform_operator.Controller.Reconcile.Program.{
  Requeue, done, again, save, only_logged, clean_old_plan, move_on, load_outputs, save_if, finish,
  observe, lose, settle, launch, start_with, approved, start_pod, with_pods, with_listed, watch,
  work, with_checked, choose_stage, proceed, lookup_of, stage_selector,
}

module _ (c : Client) {R : c.World → c.World → Type 0} (a : Allows c R) (p : Packages)
    (inherited : Inherited) (now : ℕ) where
  open c use {World}

  save-Moves : (tf : Terraform) → Moves R (save c p inherited now tf)
  save-Moves tf = update_status_with_retry-Moves c a tf tf.status

  done-Moves : Moves {W = World} R (pure done)
  done-Moves = Moves-pure c a done

  clean_old_plan-Moves :
      (tf : Terraform) (o : Option String) → Moves R (clean_old_plan c p inherited now tf o)
  unfolding clean_old_plan
  clean_old_plan-Moves tf none = Moves-pure c a tt
  clean_old_plan-Moves tf (some reason) =
      Moves-ignored c a (remove_old_plan p.md5 c tf.namespace tf.name reason tf.generation)
        (remove_old_plan-Moves p.md5 c a tf.namespace tf.name reason tf.generation)

  move_on-Moves : (tf : Terraform) (stage : Stage) → Moves R (move_on c p inherited now tf stage)
  unfolding move_on
  move_on-Moves tf stage =
      let tf' = with_status tf (record (tf.status) { stage = stage }) in
      Moves-then c a
        (clean_old_plan c p inherited now tf (old_plan_reason tf stage)
          >> only_logged c p inherited now (save c p inherited now tf')
          >> (if tf.spec.keep_latest_pods_only
              then only_logged c p inherited now (background_reap_old_generation_pods p.md5 c tf')
              else pure tt))
        (pure done)
        (Moves-then c a
          (clean_old_plan c p inherited now tf (old_plan_reason tf stage)
            >> only_logged c p inherited now (save c p inherited now tf'))
          _
          (Moves-then c a (clean_old_plan c p inherited now tf (old_plan_reason tf stage)) _
            (clean_old_plan-Moves tf (old_plan_reason tf stage))
            (Moves-ignored c a (save c p inherited now tf') (save-Moves tf')))
          (Moves-if c a tf.spec.keep_latest_pods_only _ _
            (Moves-ignored c a (background_reap_old_generation_pods p.md5 c tf')
              (background_reap_old_generation_pods-Moves p.md5 c a tf'))
            (Moves-pure c a tt)))
        done-Moves

  load_outputs-Moves :
      (tf : Terraform) (r : TaskOptions) → Moves R (load_outputs c p inherited now tf r)
  unfolding load_outputs
  load_outputs-Moves tf r =
      Moves-if c a (phase_eq tf.status.phase running && tf.spec.write_outputs_to_status) _ _
        (Moves-attempt c a (load_secret c r.outputs_secret_name r.namespace) _ _
          (load_secret-Moves c a r.outputs_secret_name r.namespace) (λ e. Moves-pure c a [])
          (λ s. Moves-pure c a s.data_map))
        (Moves-pure c a [])

  save_if-Moves : (o : Option Terraform) → Moves R (save_if c p inherited now o)
  save_if-Moves none = Moves-pure c a tt
  save_if-Moves (some tf) = save-Moves tf

  finish-Moves : (tf : Terraform) (r : TaskOptions) → Moves R (finish c p inherited now tf r)
  unfolding finish
  finish-Moves tf r =
      Moves-bind c a (load_outputs c p inherited now tf r) _ (load_outputs-Moves tf r) (λ contents.
        Moves-then c a (save_if c p inherited now (finish_workflow contents tf)) (pure done)
          (save_if-Moves (finish_workflow contents tf)) done-Moves)

  observe-Moves : (tf : Terraform) (found : Pod) → Moves R (observe c p inherited now tf found)
  unfolding observe
  observe-Moves tf found =
      Moves-then c a
        (save c p inherited now (observe_pod now found tf)
          >> (if deletes_pod tf found
              then only_logged c p inherited now (delete_object c pod found)
              else pure tt))
        (pure done)
        (Moves-then c a (save c p inherited now (observe_pod now found tf)) _
          (save-Moves (observe_pod now found tf))
          (Moves-if c a (deletes_pod tf found) _ _
            (Moves-ignored c a (delete_object c pod found) (delete_object-Moves c a pod found))
            (Moves-pure c a tt)))
        done-Moves

  lose-Moves : (tf : Terraform) → Moves R (lose c p inherited now tf)
  unfolding lose
  lose-Moves tf =
      Moves-attempt c a (save c p inherited now (lose_pod tf)) _ _ (save-Moves (lose_pod tf))
        (λ e. Moves-pure c a again) (λ _. done-Moves)

  run_deferred-Moves :
      (env : List EnvFromSource) (tf : Terraform) (jobs : List (TaskName × Plugin))
      → Moves R (run_deferred p env inherited c tf jobs)
  unfolding run_deferred
  run_deferred-Moves env tf [] = Moves-pure c a tt
  run_deferred-Moves env tf ((name, plugin) ∷ jobs) =
      let rest =
        run_deferred-Moves env (plugin_started (after_options p env inherited tf name plugin) name)
          jobs in
      Moves-attempt c a
        (create_plugin_job c p.md5 tf name plugin env inherited p.require_approval_image) _ _
        (create_plugin_job-Moves c a p.md5 tf name plugin env inherited p.require_approval_image)
        (λ e. rest) (λ _. rest)

  settle-moves :
      (env : List EnvFromSource) (s : Chosen) (w : World) (x : Result (Requeue × Terraform) × World)
      → R w x.1
      → R w (settle c p inherited now env s x).1
  unfolding settle
  settle-moves env s w (ok (r, tf), v) h = a.trans w v _ h (
      (Moves-then c a (run_deferred p env inherited c tf s.jobs) (pure r)
          (run_deferred-Moves env tf s.jobs) (Moves-pure c a r)).at
        v)
  settle-moves env s w (err e, v) h = a.trans w v _ h (
      (Moves-then c a (run_deferred p env inherited c s.tf s.jobs) (fail {A = Requeue} e)
          (run_deferred-Moves env s.tf s.jobs) (Moves-fail c a e)).at
        v)
  settle-moves env s w (panic, v) h = a.trans w v _ h (
      (Moves-then c a (run_deferred p env inherited c s.tf s.jobs) (crash {A = Requeue})
          (run_deferred-Moves env s.tf s.jobs) (Moves-crash c a)).at
        v)

  launch-Moves : (tf : Terraform) (r : TaskOptions) → Moves R (launch c p inherited now tf r)
  unfolding launch
  launch-Moves tf r = Moves-then c a (setup_and_run c p tf r) _ (setup_and_run-Moves c a p tf r) (
      Moves-attempt c a (save c p inherited now (start_stage tf)) _ _ (save-Moves (start_stage tf))
        (λ e. Moves-pure c a _) (λ _. Moves-pure c a _))

  start_with-Moves :
      (env : List EnvFromSource) (r : TaskOptions) (o : Plugged)
      → Moves R (start_with c p inherited now env r o)
  unfolding start_with
  start_with-Moves env r (missing s) = record {
    at = λ w. settle-moves env s w (ok (again, s.tf), w) (a.stay w);
  }
  start_with-Moves env r (chosen s) = record {
    at = λ w.
        settle-moves env s w
          (launch c p inherited now s.tf (record r { sidecar_plugins = s.pods }) w)
          ((launch-Moves s.tf (record r { sidecar_plugins = s.pods })).at w);
  }

  start_pod-Moves :
      (env : List EnvFromSource) (tf : Terraform) (r : TaskOptions)
      → Moves R (start_pod c p inherited now env tf r)
  unfolding start_pod
  start_pod-Moves env tf r =
      let pod_type = tf.status.stage.task_type in
      start_with-Moves env r (
        approved c p inherited now env pod_type r (
          choose_plugins p env inherited pod_type tf.spec.plugins
            (record { tf = tf; names = []; pods = []; jobs = [] })))

  with_pods-Moves :
      (env : List EnvFromSource) (tf : Terraform) (r : TaskOptions) (pods : List Pod)
      → Moves R (with_pods c p inherited now env tf r pods)
  unfolding with_pods
  with_pods-Moves env tf r [] =
      Moves-if c a (tf.status.stage.state == state_in_progress) _ _ (lose-Moves tf)
        (start_pod-Moves env tf r)
  with_pods-Moves env tf r (found ∷ pods) = observe-Moves tf found

  with_listed-moves :
      (env : List EnvFromSource) (tf : Terraform) (r : TaskOptions) (w : World)
      (x : Got (List Pod) × World)
      → R w x.1
      → R w (with_listed c p inherited now env tf r x).1
  with_listed-moves env tf r w (failed e, v) h = h
  with_listed-moves env tf r w (got pods, v) h =
      a.trans w v _ h
        ((with_pods-Moves env tf r (current_pods tf.status.retry_timestamp pods)).at v)

  watch-Moves :
      (env : List EnvFromSource) (tf : Terraform) (r : TaskOptions)
      → Moves R (watch c p inherited now env tf r)
  unfolding watch
  watch-Moves env tf r = record {
    at = λ w.
        with_listed-moves env tf r w (c.list_pods tf.namespace (stage_selector tf) w)
          (a.list_pods tf.namespace (stage_selector tf) w);
  }

  work-Moves : (tf : Terraform) → Moves R (work c p inherited now tf)
  unfolding work
  work-Moves tf =
      let env = list_env_from_sources p.global_env tf in
      let made =
        new_task_options p.md5 tf tf.status.stage.task_type tf.status.stage.generation env inherited
          p.require_approval_image in
      Moves-if c a (tf.status.stage.task_type == run_nil) _ _ (finish-Moves made.0 made.1)
        (watch-Moves env made.0 made.1)

  with_checked-Moves : (o : Checked) → Moves R (with_checked c p inherited now o)
  with_checked-Moves panicked = Moves-crash c a
  with_checked-Moves (checked tf none) = work-Moves tf
  with_checked-Moves (checked tf (some stage)) = move_on-Moves tf stage

  pub choose_stage-Moves : (tf : Terraform) → Moves R (choose_stage c p inherited now tf)
  unfolding choose_stage
  choose_stage-Moves tf = record {
    at = λ w.
        let ready = prepare now tf in
        (with_checked-Moves (
            check_set_new_stage (λ namespace name. lookup_of (c.get pod namespace name w).0) now
              ready.0 ready.1)).at
          w;
  }

  pub proceed-Moves :
      (suffix : String) (tf : Terraform) → Moves R (proceed c p inherited now suffix tf)
  unfolding proceed
  proceed-Moves suffix tf =
      Moves-if c a (tf.status.pod_name_prefix == "") _ _
        (Moves-then c a
          (only_logged c p inherited now (save c p inherited now (initialize suffix tf)))
          (pure done)
          (Moves-ignored c a (save c p inherited now (initialize suffix tf))
            (save-Moves (initialize suffix tf)))
          done-Moves)
        (Moves-if c a (nat_beq tf.status.stage.generation 0) _ _
          (Moves-then c a (save c p inherited now (first_stage now tf)) (pure done)
            (save-Moves (first_stage now tf)) done-Moves)
          (choose_stage-Moves tf))
