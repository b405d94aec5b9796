-- ===== src/Controller/Reconcile/Advancing.antt =====
-- How a stage ends: the two reconciles of pkg/controllers/terraform_controller.go that find its pod
-- finished, and then move on.

use terraform_operator.Prelude.{ℕ, String, false, List, ◌∷◌, ◌≡◌, ◌≢◌, refl, none, some}
use terraform_operator.Api.Stage.{state_complete, state_failed}
use terraform_operator.Api.Resource.{Terraform}
use terraform_operator.Cluster.{Pod, pod_succeeded}
use terraform_operator.Cluster.Effects.{ok}
use terraform_operator.Cluster.Client.{Client, got}
use terraform_operator.Controller.Options.{Inherited}
use terraform_operator.Controller.Packages.{Packages}
use terraform_operator.Controller.Workflow.{next_task, get_configured_tasks, new_stage}
use terraform_operator.Controller.Reconcile.Start.{with_status}
use terraform_operator.Controller.Reconcile.Watch.{observe_pod}
use terraform_operator.Controller.Reconcile.FirstSteps.{Keeps}
use terraform_operator.Controller.Reconcile.Program.{done, read_and_reconcile, stage_selector}
use terraform_operator.Controller.Reconcile.Watching.{IsUnderWay, observes, moves, next_stage}

-- A resource that was moved on by one task.
pub record IsAdvanced (tf tf' : Terraform) : Type 0 where
  pub task_type :
      tf'.status.stage.task_type
      ≡ next_task tf.status.stage.task_type (get_configured_tasks tf.spec.task_options)
  pub generation : tf'.status.stage.generation ≡ tf.generation
  pub phase : tf'.status.phase ≡ tf.status.phase
  pub spec : tf'.spec ≡ tf.spec

module _ (c : Client) (k : Keeps c) (p : Packages) (inherited : Inherited) where
  open c use {World}

  -- A finished pod moves the workflow on: while nobody else writes to the cluster, if the pod of an
  -- unfinished stage is found to have succeeded, then the reconcile that finds it and the one after
  -- it succeed, and leave the resource at the next configured task of its generation, in the same
  -- phase and with the same spec. The resource has its finalizer, its name and a stage of its
  -- generation, no retry was asked for, no new deletion is, old pods are kept, and the pod itself is
  -- kept or deleted as the resource says.
  pub read_and_reconcile-IsAdvanced :
      (tf : Terraform) (found : Pod) (pods : List Pod) (w : World) (now later : ℕ)
      (suffix suffix' : String)
      → IsUnderWay tf
      → k.stored tf.namespace tf.name w ≡ some tf
      → tf.status.stage.state ≢ state_complete
      → tf.status.stage.state ≢ state_failed
      → tf.status.retry_timestamp ≡ none
      → tf.spec.keep_latest_pods_only ≡ false
      → c.list_pods tf.namespace (stage_selector tf) w ≡ (got (found ∷ pods), w)
      → found.phase ≡ pod_succeeded
      → (w1 w2 : World) × (tf' : Terraform) × (read_and_reconcile c p inherited now tf.namespace
            tf.name suffix w
          ≡ (ok done, w1))
        × (read_and_reconcile c p inherited later tf.namespace tf.name suffix' w1 ≡ (ok done, w2))
        × (k.stored tf.namespace tf.name w2 ≡ some tf')
        × IsAdvanced tf tf'
  unfolding observe_pod new_stage
  read_and_reconcile-IsAdvanced tf found pods w now later suffix suffix' u h n f r kept l s =
      let (w1, first, there1) = observes c k p inherited now tf u suffix w found pods h n f r l in
      let seen = observe_pod now found tf in
      let u' : IsUnderWay seen = record {
        live = u.live;
        finalized = u.finalized;
        not_ignored = u.not_ignored;
        named = u.named;
        started = u.started;
        current = u.current;
        steady = record { no_retry = u.steady.no_retry; no_deletion = u.steady.no_deletion };
        working = u.working;
      } in
      let (w2, second, there2) =
        moves c k p inherited later seen u' suffix' w1 there1 (rw s refl) kept in
      (
        w1,
        w2,
        with_status seen
            (record (seen.status) { stage = next_stage c k p inherited later seen u' }),
        first,
        second,
        there2,
        record { task_type = refl; generation = refl; phase = refl; spec = refl },
      )
