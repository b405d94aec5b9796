-- ===== src/Controller/Reconcile/Beginning.antt =====
-- The first reconciles of a new resource, in pkg/controllers/terraform_controller.go.
use terraform_operator.Prelude.{ℕ, String, true, false, [], ◌≡◌, ◌≢◌, refl, arith, some}
use terraform_operator.Utils.{list_contains_str}
use terraform_operator.Api.Task.{run_setup}
use terraform_operator.Api.Stage.{phase_eq, deleted, initializing, state_initializing}
use terraform_operator.Api.Resource.{Terraform}
use terraform_operator.Cluster.Effects.{ok}
use terraform_operator.Cluster.Client.{Client}
use terraform_operator.Controller.Options.{Inherited}
use terraform_operator.Controller.Packages.{Packages}
use terraform_operator.Controller.Finalizers.{terraform_finalizer, update_finalizer}
use terraform_operator.Controller.Reconcile.Naming.{initialize-named}
use terraform_operator.Controller.Reconcile.Start.{initialize, first_stage}
use terraform_operator.Controller.Finalizers.Resource.{contains-middle, added}
use terraform_operator.Controller.Workflow.{new_stage}
use terraform_operator.Controller.Reconcile.Program.{done, read_and_reconcile}
use terraform_operator.Controller.Reconcile.FirstSteps.{Keeps, finalized, named, staged}

-- A resource with the finalizer keeps it.
pub stays_finalized :
    (tf : Terraform)
    → phase_eq tf.status.phase deleted ≡ false
    → tf.spec.ignore_delete ≡ false
    → list_contains_str tf.finalizers terraform_finalizer ≡ true
    → update_finalizer tf ≡ some (tf, false)
unfolding update_finalizer
stays_finalized tf n i f = ground arith

gets_finalized :
    (tf : Terraform)
    → phase_eq tf.status.phase deleted ≡ false
    → tf.spec.ignore_delete ≡ false
    → list_contains_str tf.finalizers terraform_finalizer ≡ false
    → update_finalizer tf ≡ some (added tf, true)
unfolding update_finalizer
gets_finalized tf n i f = ground arith

-- A resource that is about to start: it has the finalizer, a name, and the setup task of its
-- generation as its first stage.
pub record IsStarted (tf tf' : Terraform) : Type 0 where
  pub finalized : list_contains_str tf'.finalizers terraform_finalizer ≡ true
  pub spec : tf'.spec ≡ tf.spec
  pub named : tf'.status.pod_name_prefix ≢ ""
  pub phase : tf'.status.phase ≡ initializing
  pub task_type : tf'.status.stage.task_type ≡ run_setup
  pub state : tf'.status.stage.state ≡ state_initializing
  pub generation : tf'.status.stage.generation ≡ tf.generation
  pub reason : tf'.status.stage.reason ≡ "TF_RESOURCE_CREATED"

module _ (c : Client) (k : Keeps c) (p : Packages) (inherited : Inherited) where
  open c use {World}

  -- A new resource starts: while nobody else writes to the cluster, three reconciles of a stored
  -- resource that has no finalizer of the operator, no name and no stage, is not to be ignored on
  -- deletion and is not marked as deleted, succeed, and leave it with the finalizer, with a name,
  -- and at the setup task of its generation, its spec as it was.
  pub read_and_reconcile-IsStarted :
      (tf : Terraform) (w : World) (now1 now2 now3 : ℕ) (suffix1 suffix2 suffix3 : String)
      → k.stored tf.namespace tf.name w ≡ some tf
      → phase_eq tf.status.phase deleted ≡ false
      → tf.spec.ignore_delete ≡ false
      → list_contains_str tf.finalizers terraform_finalizer ≡ false
      → tf.status.pod_name_prefix ≡ ""
      → tf.status.stage.generation ≡ 0
      → (w1 w2 w3 : World) × (tf' : Terraform) × (read_and_reconcile c p inherited now1 tf.namespace
            tf.name suffix1 w
          ≡ (ok done, w1))
        × (read_and_reconcile c p inherited now2 tf.namespace tf.name suffix2 w1 ≡ (ok done, w2))
        × (read_and_reconcile c p inherited now3 tf.namespace tf.name suffix3 w2 ≡ (ok done, w3))
        × (k.stored tf.namespace tf.name w3 ≡ some tf')
        × IsStarted tf tf'
  unfolding first_stage initialize new_stage
  read_and_reconcile-IsStarted tf w now1 now2 now3 suffix1 suffix2 suffix3 h n i f e g =
      let has = contains-middle tf.finalizers [] terraform_finalizer in
      let (w1, first, there1) =
        finalized c k p inherited now1 tf suffix1 w h n (gets_finalized tf n i f) in
      let (w2, second, there2) =
        named c k p inherited now2 (added tf) suffix2 w1 there1 n
          (stays_finalized (added tf) n i has) e in
      let tf2 = initialize suffix2 (added tf) in
      let (w3, third, there3) =
        staged c k p inherited now3 tf2 suffix3 w2 there2 refl (stays_finalized tf2 refl i has)
          (initialize-named (added tf) suffix2) g in
      (
        w1,
        w2,
        w3,
        first_stage now3 tf2,
        first,
        second,
        third,
        there3,
        record {
          finalized = has;
          spec = refl;
          named = initialize-named (added tf) suffix2;
          phase = refl;
          task_type = refl;
          state = refl;
          generation = refl;
          reason = refl;
        },
      )
