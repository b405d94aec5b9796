-- ===== src/Controller/Reconcile/Progress.antt =====
-- A workflow whose pods succeed comes to its end.
use terraform_operator.Controller.Workflow.Orders.{IsWorkflow, workflow-ne-nil}
use terraform_operator.Controller.Workflow.Next.{run_tasks, run_tasks-nil, run_tasks_end}
use terraform_operator.Api.Spec.{StringMap}
use terraform_operator.Controller.Reconcile.Start.{with_status}
use terraform_operator.Controller.Reconcile.Finish.{finish_workflow, merge_outputs}
use terraform_operator.Controller.Reconcile.Watch.{
  state_of, start_stage, observe_pod, pass_stage, pass_stages,
}
use terraform_operator.Prelude.{
  true, eq_iff, ◌⊎◌, ◌∷◌, List, sym, inl, Memᴰ, Option, none, [], ap₂, arith, suc, inr, All, length,
  text_cases, ℕ, String, false, ◌≡◌, ◌≢◌, refl, ap, ◌∙◌, some, ◌==◌, if◌then◌else◌,
}
use terraform_operator.Api.Task.{run_setup, TaskName, run_nil}
use terraform_operator.Api.Stage.{
  Stage, state_in_progress, StatusPhase, initializing, completed, init_delete, deleted, running,
  deleting, state_initializing,
}
use terraform_operator.Api.Resource.{Terraform}
use terraform_operator.Cluster.{other_phase, Pod, pod_succeeded}
use terraform_operator.Controller.Workflow.{
  is_deleting_phase, PodLookup, get_configured_tasks, check_set_new_stage, checked,
}
use terraform_operator.Controller.Workflow.Stages.{check_set_new_stage-new_generation}
use terraform_operator.Controller.Reconcile.Passing.{
  IsSteady, pass_stage-Passed, start_stage-running, start_stage-deleting,
}

-- What a run through stages of which the pods succeed comes to.
record Run (n : ℕ) (tf tf' : Terraform) : Type 0 where
  task_type :
      tf'.status.stage.task_type
      ≡ run_tasks n (get_configured_tasks tf.spec.task_options) tf.status.stage.task_type
  stays_running : tf.status.phase ≡ running → tf'.status.phase ≡ running
  stays_deleting : tf.status.phase ≡ deleting → tf'.status.phase ≡ deleting

-- The phase in which the workflow of a phase ends.
abbrev pub final_phase : StatusPhase → Option StatusPhase
final_phase initializing = some completed
final_phase running = some completed
final_phase init_delete = some deleted
final_phase deleting = some deleted
final_phase _ = none

running_ne : ◌≢◌ {A = String} "Running" state_in_progress
running_ne e = ground (arith, eq_iff "Running" state_in_progress)

ne_test : (t : TaskName) → t ≢ run_nil → (t == run_nil) ≡ false
ne_test t n = ground (arith, eq_iff t run_nil)

start_phase :
    (tf : Terraform) (final : StatusPhase)
    → final_phase tf.status.phase ≡ some final
    → (((start_stage tf).status.phase ≡ running) × (final ≡ completed))
      ⊎ (((start_stage tf).status.phase ≡ deleting) × (final ≡ deleted))
unfolding start_stage
start_phase tf final f = ground arith

finish-final :
    (contents : StringMap) (tf : Terraform) (final : StatusPhase)
    → final_phase tf.status.phase ≡ some final
    → (tf.status.phase ≡ running) ⊎ (tf.status.phase ≡ deleting)
    → (tf' : Terraform) × (finish_workflow contents tf ≡ some tf') × (tf'.status.phase ≡ final)
unfolding finish_workflow
finish-final contents tf final f (inl h) = (
  with_status tf (record (tf.status) {
    phase = completed;
    outputs =
        if tf.spec.write_outputs_to_status
        then merge_outputs contents tf.status.outputs
        else tf.status.outputs;
  }),
  ground arith,
  ground arith,
)
finish-final contents tf final f (inr h) =
    (with_status tf (record (tf.status) { phase = deleted }), ground arith, ground arith)

module _ (get_pod : String → String → PodLookup) where
  pass_stages-nil :
      (e : ℕ × Pod) (pods : List (ℕ × Pod)) (tf : Terraform)
      → (tf.status.stage.task_type == run_nil) ≡ true
      → pass_stages get_pod (e ∷ pods) tf ≡ some tf
  unfolding pass_stages
  pass_stages-nil (now, pod) pods tf h = ground arith

  pass_stages-cons :
      (now : ℕ) (pod : Pod) (pods : List (ℕ × Pod)) (tf tf' : Terraform)
      → (tf.status.stage.task_type == run_nil) ≡ false
      → pass_stage get_pod now pod tf ≡ some tf'
      → pass_stages get_pod ((now, pod) ∷ pods) tf ≡ pass_stages get_pod pods tf'
  unfolding pass_stages
  pass_stages-cons now pod pods tf tf' h q = ground arith

  pass_stages-Run :
      (pods : List (ℕ × Pod)) (tf : Terraform)
      → All (λ e. e.1.phase ≡ pod_succeeded) pods
      → tf.status.stage.generation ≡ tf.generation
      → IsSteady tf
      → (tf' : Terraform) × (pass_stages get_pod pods tf ≡ some tf') × Run (length pods) tf tf'
  unfolding pass_stages
  pass_stages-Run [] tf p g z =
      (tf, refl, record { task_type = refl; stays_running = λ h. h; stays_deleting = λ h. h })
  pass_stages-Run ((now, pod) ∷ pods) tf (p, ps) g z =
      let configured = get_configured_tasks tf.spec.task_options in
      elim (text_cases tf.status.stage.task_type run_nil) [
        | inl (nil, e) ↦ (
          tf,
          pass_stages-nil (now, pod) pods tf e,
          record {
            task_type =
                nil
                ∙ sym (
                    ap (λ t. run_tasks (suc (length pods)) configured t) nil
                    ∙ run_tasks-nil (suc (length pods)) configured);
            stays_running = λ h. h;
            stays_deleting = λ h. h;
          },
        )
        | inr (n, e) ↦
            let (tf1, q, one) = pass_stage-Passed get_pod now pod tf p n g z in
            let (tf2, r, more) = pass_stages-Run pods tf1 ps one.generation one.steady in
            (
              tf2,
              pass_stages-cons now pod pods tf tf1 e q ∙ r,
              record {
                task_type =
                    more.task_type
                    ∙ ap₂ (λ c t. run_tasks (length pods) c t)
                        (ap (λ s. get_configured_tasks s.task_options) one.spec) one.task_type;
                stays_running = λ h. more.stays_running (one.phase ∙ start_stage-running tf h);
                stays_deleting = λ h. more.stays_deleting (one.phase ∙ start_stage-deleting tf h);
              },
            )
      ]

  -- After the first stage the phase says which workflow runs.
  pass_stages-phase :
      (now : ℕ) (pod : Pod) (pods : List (ℕ × Pod)) (tf : Terraform) (final : StatusPhase)
      → All (λ e. e.1.phase ≡ pod_succeeded) ((now, pod) ∷ pods)
      → tf.status.stage.task_type ≢ run_nil
      → tf.status.stage.generation ≡ tf.generation
      → IsSteady tf
      → final_phase tf.status.phase ≡ some final
      → (tf' : Terraform) × (pass_stages get_pod ((now, pod) ∷ pods) tf ≡ some tf')
        × (tf'.status.stage.task_type
            ≡ run_tasks
                (suc (length pods))
                (get_configured_tasks tf.spec.task_options)
                tf.status.stage.task_type)
        × (final_phase tf'.status.phase ≡ some final)
        × ((tf'.status.phase ≡ running) ⊎ (tf'.status.phase ≡ deleting))
  pass_stages-phase now pod pods tf final (p, ps) n g z f =
      let e = ne_test tf.status.stage.task_type n in
      let (tf1, q, one) = pass_stage-Passed get_pod now pod tf p n g z in
      let (tf2, r, more) = pass_stages-Run pods tf1 ps one.generation one.steady in
      let task =
        more.task_type
        ∙ ap₂ (λ c t. run_tasks (length pods) c t)
            (ap (λ s. get_configured_tasks s.task_options) one.spec) one.task_type in
      let started : (((start_stage tf).status.phase ≡ running) × (final ≡ completed))
          ⊎ (((start_stage tf).status.phase ≡ deleting) × (final ≡ deleted)) =
        start_phase tf final f in
      elim started [
        | inl (h, k) ↦
            let same = more.stays_running (one.phase ∙ h) in
            (tf2, pass_stages-cons now pod pods tf tf1 e q ∙ r, task, rw (same, k) refl, inl same)
        | inr (h, k) ↦
            let same = more.stays_deleting (one.phase ∙ h) in
            (tf2, pass_stages-cons now pod pods tf tf1 e q ∙ r, task, rw (same, k) refl, inr same)
      ]

  -- If the pods of its stages succeed, and no retry and no new deletion is asked for, a resource
  -- comes to the end of its workflow after ten stages at most, whichever tasks are configured, and
  -- without a panic: there is no task left, and the next reconcile marks it as completed if it was
  -- created or changed, and as deleted if it was being deleted.
  pub pass_stages_end :
      (order : List TaskName) (tf : Terraform) (pods : List (ℕ × Pod)) (final : StatusPhase)
      (contents : StringMap)
      → IsWorkflow order
      → Memᴰ tf.status.stage.task_type order
      → tf.status.stage.generation ≡ tf.generation
      → IsSteady tf
      → final_phase tf.status.phase ≡ some final
      → All (λ e. e.1.phase ≡ pod_succeeded) pods
      → length pods ≡ 10
      → (tf' tf'' : Terraform) × (pass_stages get_pod pods tf ≡ some tf')
        × (tf'.status.stage.task_type ≡ run_nil)
        × (finish_workflow contents tf' ≡ some tf'')
        × (tf''.status.phase ≡ final)
  pass_stages_end order tf [] final contents w m g z f p l = absurd (omega arith)
  pass_stages_end order tf ((now, pod) ∷ pods) final contents w m g z f p l =
      let (tf', q, task, same, kind) =
        pass_stages-phase now pod pods tf final p (workflow-ne-nil order w m) g z f in
      let (tf'', fin, phase) = finish-final contents tf' final same kind in
      (
        tf',
        tf'',
        q,
        task
            ∙ ap
                (λ k.
                  run_tasks k (get_configured_tasks tf.spec.task_options) tf.status.stage.task_type)
                l
            ∙ run_tasks_end order (get_configured_tasks tf.spec.task_options)
                tf.status.stage.task_type w m,
        fin,
        phase,
      )

  -- A changed resource whose pod was seen in the phase `Running` starts over at the setup task,
  -- also if the stage must not be interrupted: its state is the pod's phase, not in-progress.
  pub check_set_new_stage-running_pod :
      (now later : ℕ) (pod : Pod) (tf : Terraform)
      → pod.phase ≡ other_phase "Running"
      → tf.status.stage.generation ≢ tf.generation
      → is_deleting_phase tf.status.phase ≡ false
      → (stage : Stage) × (tf' : Terraform) × (check_set_new_stage get_pod later
            (observe_pod now pod tf)
            false
          ≡ checked tf' (some stage))
        × (stage.task_type ≡ run_setup)
        × (stage.state ≡ state_initializing)
  unfolding observe_pod
  check_set_new_stage-running_pod now later pod tf p g d =
      let (stage, tf', e, task, state, _, _, _) =
        check_set_new_stage-new_generation get_pod later (observe_pod now pod tf) g d
          (λ q. running_ne (sym (ap state_of p) ∙ q)) in
      (stage, tf', e, task, state)
