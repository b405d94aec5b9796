-- ===== src/Controller/Reconcile/FirstSteps.antt =====
-- The first reconciles of a resource, one at a time, in pkg/controllers/terraform_controller.go.
use terraform_operator.Prelude.{
  ℕ, String, Bool, true, false, List, ◌≡◌, ◌≢◌, refl, ap, ◌∙◌, arith, Option, none, some, ◌==◌,
  if◌then◌else◌, eq_iff, eq_refl,
}
use terraform_operator.Api.Task.Lists.{task_lists_are_equal_iff}
use terraform_operator.Api.Stage.{StatusPhase, is_equal_iff, phase_eq, deleted}
use terraform_operator.Api.Spec.{TerraformSpec}
use terraform_operator.Api.Resource.{Terraform, TerraformStatus}
use terraform_operator.Cluster.{Kind, Object}
use terraform_operator.Cluster.Effects.{fail, pure, caught, ok}
use terraform_operator.Cluster.Client.{Client, got}
use terraform_operator.Controller.Options.{Inherited}
use terraform_operator.Controller.Packages.{Packages}
use terraform_operator.Controller.Finalizers.{update_finalizer}
use terraform_operator.Controller.Status.{update, is_confirmed}
use terraform_operator.Controller.Status.Updates.{
  get_terraform_resource-got, update_status_with_retry-confirmed,
}
use terraform_operator.Controller.Reconcile.Start.{with_status, initialize, first_stage}
use terraform_operator.Controller.Finalizers.Resource.{added}
use terraform_operator.Controller.Workflow.{new_stage}
use terraform_operator.Controller.Reconcile.Program.{
  final_delete, after_finalizers, is_missing, proceed, reconcile_resource, done, save,
  read_and_reconcile,
}

-- What the operator relies on of the API server while nobody else writes: a stored resource is read
-- as it is, an update of its finalizers or of its status is accepted and stored, that of a status
-- without the spec that comes with it, and to delete another object leaves it alone.
pub record Keeps (c : Client) : Type 0 where
  pub stored : (namespace name : String) → c.World → Option Terraform
  pub read :
      (tf : Terraform) (w : c.World)
      → stored tf.namespace tf.name w ≡ some tf
      → c.get_terraform tf.namespace tf.name w ≡ (got tf, w)
  pub update :
      (tf : Terraform) (finalizers : List String) (w : c.World)
      → stored tf.namespace tf.name w ≡ some tf
      → let tf' : Terraform = record tf { finalizers = finalizers } in
        (w' : c.World) × (c.update_terraform tf' w ≡ (none, w'))
        × (stored tf.namespace tf.name w' ≡ some tf')
  pub update_status :
      (tf : Terraform) (spec : TerraformSpec) (status : TerraformStatus) (w : c.World)
      → stored tf.namespace tf.name w ≡ some tf
      → let sent : Terraform = record tf { spec = spec; status = status } in
        (w' : c.World) × (c.update_status sent w ≡ (none, w'))
        × (stored tf.namespace tf.name w' ≡ some (with_status tf status))
  pub delete :
      (kind : Kind) (o : Object kind) (w : c.World) (namespace name : String)
      → stored namespace name (c.delete kind o w).1 ≡ stored namespace name w

phase_self : (p : StatusPhase) → phase_eq p p ≡ true
phase_self p = ground arith

-- A status is the desired one if it is the same.
confirmed_self : (c : Client) (s : TerraformStatus) → is_confirmed c s s ≡ true
confirmed_self c s =
    let same_stage = (is_equal_iff s.stage s.stage).1 (record {
      generation = refl;
      task_type = refl;
      interruptible = refl;
      reason = refl;
      message = refl;
      pod_name = refl;
    }) in
    rw
      (
        (task_lists_are_equal_iff s.plugins_started s.plugins_started).1 refl,
        same_stage,
        phase_self s.phase,
        eq_refl s.pod_name_prefix,
      )
      refl

pub ne_test : (t : String) → t ≢ "" → (t == "") ≡ false
ne_test t n = ground (arith, eq_iff t "")

module _ (c : Client) (k : Keeps c) (p : Packages) (inherited : Inherited) (now : ℕ) where
  open c use {World}

  -- What a call came to: the resource that is stored after it.
  abbrev pub Stored : Terraform → World → Type 0
  Stored tf w = k.stored tf.namespace tf.name w ≡ some tf

  -- A status is saved, whatever spec comes with it.
  pub sent-Stored :
      (tf : Terraform) (spec : TerraformSpec) (status : TerraformStatus) (w : World)
      → Stored tf w
      → let sent : Terraform = record tf { spec = spec; status = status } in
        let tf' = with_status tf status in
        (w' : World) × (save c p inherited now sent w ≡ (ok tt, w')) × Stored tf' w'
  sent-Stored tf spec status w h =
      let sent : Terraform = record tf { spec = spec; status = status } in
      let tf' = with_status tf status in
      let (w', written, there) = k.update_status tf spec status w h in
      (
        w',
        update_status_with_retry-confirmed c sent status tf' w w' w' written (k.read tf' w' there)
            (confirmed_self c status),
        there,
      )

  pub save-Stored :
      (tf : Terraform) (status : TerraformStatus) (w : World)
      → Stored tf w
      → let tf' = with_status tf status in
        (w' : World) × (save c p inherited now tf' w ≡ (ok tt, w')) × Stored tf' w'
  save-Stored tf status w h = sent-Stored tf tf.spec status w h

  read-Stored :
      (tf : Terraform) (suffix : String) (w : World)
      → Stored tf w
      → read_and_reconcile c p inherited now tf.namespace tf.name suffix w
        ≡ reconcile_resource c p inherited now suffix tf w
  unfolding read_and_reconcile
  read-Stored tf suffix w h =
      ap
        (λ x.
          caught x (λ e. if is_missing e then pure done else fail e)
            (reconcile_resource c p inherited now suffix))
        (get_terraform_resource-got c tf.namespace tf.name tf.status 3 tf w w (k.read tf w h))

  -- A resource that is not deleted goes on with its finalizers.
  pub live-Stored :
      (tf : Terraform) (suffix : String) (w : World) (o : Option (Terraform × Bool))
      → Stored tf w
      → phase_eq tf.status.phase deleted ≡ false
      → update_finalizer tf ≡ o
      → read_and_reconcile c p inherited now tf.namespace tf.name suffix w
        ≡ after_finalizers c p inherited now suffix o w
  unfolding reconcile_resource
  live-Stored tf suffix w o h n f =
      let live : reconcile_resource c p inherited now suffix tf w
          ≡ after_finalizers c p inherited now suffix (update_finalizer tf) w =
        ap
          (λ b.
            (if b
                then final_delete c p inherited now tf
                else after_finalizers c p inherited now suffix (update_finalizer tf))
              w)
          n in
      read-Stored tf suffix w h ∙ live ∙ ap (λ x. after_finalizers c p inherited now suffix x w) f

  -- The finalizer is added.
  pub finalized :
      (tf : Terraform) (suffix : String) (w : World)
      → Stored tf w
      → phase_eq tf.status.phase deleted ≡ false
      → update_finalizer tf ≡ some (added tf, true)
      → (w' : World) × (read_and_reconcile c p inherited now tf.namespace tf.name suffix w
          ≡ (ok done, w'))
        × Stored (added tf) w'
  unfolding update
  finalized tf suffix w h n f =
      let (w', written, there) = k.update tf (added tf).finalizers w h in
      (w', live-Stored tf suffix w _ h n f ∙ rw written refl, there)

  -- The resource is named.
  pub named :
      (tf : Terraform) (suffix : String) (w : World)
      → Stored tf w
      → phase_eq tf.status.phase deleted ≡ false
      → update_finalizer tf ≡ some (tf, false)
      → tf.status.pod_name_prefix ≡ ""
      → let tf' = initialize suffix tf in
        (w' : World) × (read_and_reconcile c p inherited now tf.namespace tf.name suffix w
          ≡ (ok done, w'))
        × Stored tf' w'
  unfolding proceed initialize
  named tf suffix w h n f e =
      let (w', saved, there) = save-Stored tf (initialize suffix tf).status w h in
      (w', live-Stored tf suffix w _ h n f ∙ rw (e, saved) refl, there)

  -- The first stage is set.
  pub staged :
      (tf : Terraform) (suffix : String) (w : World)
      → Stored tf w
      → phase_eq tf.status.phase deleted ≡ false
      → update_finalizer tf ≡ some (tf, false)
      → tf.status.pod_name_prefix ≢ ""
      → tf.status.stage.generation ≡ 0
      → let tf' = first_stage now tf in
        (w' : World) × (read_and_reconcile c p inherited now tf.namespace tf.name suffix w
          ≡ (ok done, w'))
        × Stored tf' w'
  unfolding proceed first_stage new_stage
  staged tf suffix w h n f e g =
      let (w', saved, there) = save-Stored tf (first_stage now tf).status w h in
      (
        w',
        live-Stored tf suffix w _ h n f ∙ rw (ne_test tf.status.pod_name_prefix e, g, saved) refl,
        there,
      )
