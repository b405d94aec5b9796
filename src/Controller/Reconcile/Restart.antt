-- ===== src/Controller/Reconcile/Restart.antt =====
-- What a restart of the workflow removes.
use terraform_operator.Prelude.{
  ℕ, String, true, false, List, ◌≡◌, ◌≢◌, refl, ap, ◌↔◌, arith, eq_iff, some,
}
use terraform_operator.Api.Task.{TaskName, run_apply, run_post_init}
use terraform_operator.Api.Stage.{
  Stage, state_failed, state_in_progress, state_complete, state_initializing,
}
use terraform_operator.Api.Spec.{EnvFromSource}
use terraform_operator.Api.Resource.{Terraform}
use terraform_operator.Controller.Options.{Inherited}
use terraform_operator.Controller.PodTemplate.{pod_labels}
use terraform_operator.Controller.PodTemplate.Labels.{options_of}
use terraform_operator.Controller.Workflow.{
  PodLookup, pod_not_found, checked, check_set_new_stage, new_stage, decide, move, next_task,
  get_configured_tasks, is_task_interruptable, apply_decision,
}
use terraform_operator.Controller.Cleanup.{remove_old_plan}
use terraform_operator.Controller.Cleanup.OldPlan.{picks, otherwise, remove_old_plan-picks}
use terraform_operator.Cluster.{pod}
use terraform_operator.Cluster.Effects.{api_result}
use terraform_operator.Cluster.Client.{Client, Condition}
use terraform_operator.Controller.Reconcile.Adopting.{old_plan_reason}

module _ (get_pod : String → String → PodLookup) (now : ℕ) (tf : Terraform)
    (gone : get_pod tf.namespace tf.status.stage.pod_name ≡ pod_not_found)
    (same : tf.status.stage.generation ≡ tf.generation)
    (failed : tf.status.stage.state ≡ state_failed)
    (applied : tf.status.stage.task_type ≡ run_apply) where
  decide-restart :
      let next = next_task run_post_init (get_configured_tasks tf.spec.task_options) in
      decide get_pod tf false
      ≡ move next "RESTARTED_WORKFLOW" (is_task_interruptable next) state_initializing
  unfolding decide
  decide-restart = ground (
    arith,
    eq_iff tf.status.stage.state state_failed,
    eq_iff tf.status.stage.state state_in_progress,
    eq_iff tf.status.stage.state state_complete,
    eq_iff state_failed state_in_progress,
    eq_iff state_failed state_complete,
    eq_iff tf.status.stage.task_type run_apply,
  )

  -- A failed apply stage of the current generation whose pod is gone restarts the workflow, if
  -- there is no retry, with the first configured task behind the init tasks. The old plan is
  -- removed for the reason of the failed stage, not for that of the new one. If the failed stage
  -- was itself entered for no restart, the deletion that `removeOldPlan` sends for that reason
  -- picks every pod of the generation that is not running, those of the setup and init tasks too.
  pub check_set_new_stage-restart :
      (md5 : String → String) (c : Client) (w : c.World) (task : TaskName)
      (env : List EnvFromSource) (inherited : Inherited) (approval phase : String)
      → tf.status.stage.reason ≢ "RESTARTED_WORKFLOW"
      → tf.status.stage.reason ≢ "RESTARTED_DELETE_WORKFLOW"
      → (stage : Stage) × (selector : List Condition) × (check_set_new_stage get_pod now tf false
          ≡ checked tf (some stage))
        × (stage.task_type ≡ next_task run_post_init (get_configured_tasks tf.spec.task_options))
        × (stage.reason ≡ "RESTARTED_WORKFLOW")
        × (old_plan_reason tf stage ≡ some tf.status.stage.reason)
        × (remove_old_plan md5 c tf.namespace tf.name tf.status.stage.reason tf.generation w
            ≡ api_result (c.delete_all_of pod tf.namespace selector w))
        × ((picks
                (pod_labels (options_of md5 tf task tf.generation env inherited approval))
                phase
                selector
              ≡ true)
            ↔ (phase ≢ "Running"))
  unfolding check_set_new_stage new_stage old_plan_reason
  check_set_new_stage-restart md5 c w task env inherited approval phase r d =
      let next = next_task run_post_init (get_configured_tasks tf.spec.task_options) in
      let (selector, sent, picked) =
        remove_old_plan-picks md5 c tf task tf.generation env inherited approval phase
          tf.status.stage.reason w in
      (
        (new_stage now tf next "RESTARTED_WORKFLOW" (is_task_interruptable next)
            state_initializing).1,
        selector,
        ap (apply_decision now tf) decide-restart,
        refl,
        refl,
        refl,
        sent,
        (λ h. (picked.0 h).0, λ n. picked.1 (n, otherwise r d)),
      )
