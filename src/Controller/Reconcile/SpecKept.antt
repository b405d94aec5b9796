-- ===== src/Controller/Reconcile/SpecKept.antt =====
-- A reconcile of pkg/controllers/terraform_controller.go leaves the specs of all resources alone.
use terraform_operator.Prelude.{
  ℕ, String, Bool, true, false, List, if◌then◌else◌, Option, none, some, ◌≡◌, refl, ap, ◌∙◌, sym,
}
use terraform_operator.Api.Spec.{TerraformSpec}
use terraform_operator.Api.Stage.{deleted, phase_eq}
use terraform_operator.Api.Resource.{Terraform}
use terraform_operator.Cluster.{Kind, Object}
use terraform_operator.Cluster.Effects.{
  ApiError, Result, ok, err, panic, M, pure, fail, go_on, ◌>>◌, caught,
}
use terraform_operator.Cluster.Client.{Client, Condition, got}
use terraform_operator.Cluster.Moving.{Allows, Moves-pure, Moves-fail, Moves-if, go_on-moves}
use terraform_operator.Controller.Options.{Inherited}
use terraform_operator.Controller.Packages.{Packages}
use terraform_operator.Controller.Status.{write_result, update, get_terraform_resource}
use terraform_operator.Controller.Status.Moving.{
  get_terraform_resource-Moves, get_terraform_resource-reads,
}
use terraform_operator.Controller.Finalizers.{update_finalizer, update_secret_finalizer}
use terraform_operator.Controller.Finalizers.Moving.{
  update_secret_finalizer-Moves, update_finalizer-keeps,
}
use terraform_operator.Controller.Reconcile.Program.{
  Requeue, done, is_missing, final_update, final_delete, after_finalizers, reconcile_resource,
  read_and_reconcile,
}
use terraform_operator.Controller.Reconcile.Moving.{proceed-Moves}

-- What the operator relies on of the API server while nobody else writes: a read of a resource
-- returns its spec, an update stores the spec that it is given, an update of a status does not touch
-- the spec, and neither do the calls for other objects.
pub record StoresSpecs (c : Client) : Type 0 where
  pub spec_of : (namespace name : String) → c.World → Option TerraformSpec
  pub read :
      (ns n : String) (w w' : c.World) (tf : Terraform)
      → c.get_terraform ns n w ≡ (got tf, w')
      → spec_of tf.namespace tf.name w' ≡ some tf.spec
  pub written :
      (tf : Terraform) (w : c.World) (namespace name : String)
      → spec_of tf.namespace tf.name w ≡ some tf.spec
      → spec_of namespace name (c.update_terraform tf w).1 ≡ spec_of namespace name w
  pub get :
      (kind : Kind) (ns n : String) (w : c.World) (namespace name : String)
      → spec_of namespace name (c.get kind ns n w).1 ≡ spec_of namespace name w
  pub create :
      (kind : Kind) (o : Object kind) (w : c.World) (namespace name : String)
      → spec_of namespace name (c.create kind o w).1 ≡ spec_of namespace name w
  pub update :
      (kind : Kind) (o : Object kind) (w : c.World) (namespace name : String)
      → spec_of namespace name (c.update kind o w).1 ≡ spec_of namespace name w
  pub delete :
      (kind : Kind) (o : Object kind) (w : c.World) (namespace name : String)
      → spec_of namespace name (c.delete kind o w).1 ≡ spec_of namespace name w
  pub delete_all_of :
      (kind : Kind) (ns : String) (selector : List Condition) (w : c.World)
      (namespace name : String)
      → spec_of namespace name (c.delete_all_of kind ns selector w).1 ≡ spec_of namespace name w
  pub list_pods :
      (ns : String) (selector : List Condition) (w : c.World) (namespace name : String)
      → spec_of namespace name (c.list_pods ns selector w).1 ≡ spec_of namespace name w
  pub get_terraform :
      (ns n : String) (w : c.World) (namespace name : String)
      → spec_of namespace name (c.get_terraform ns n w).1 ≡ spec_of namespace name w
  pub update_status :
      (tf : Terraform) (w : c.World) (namespace name : String)
      → spec_of namespace name (c.update_status tf w).1 ≡ spec_of namespace name w

module _ (c : Client) (s : StoresSpecs c) (p : Packages) (inherited : Inherited) (now : ℕ) where
  open c use {World}

  -- Every spec is as it was.
  abbrev Same : World → World → Type 0
  Same w w' = (namespace name : String) → s.spec_of namespace name w' ≡ s.spec_of namespace name w

  Same-Allows : Allows c Same
  Same-Allows = record {
    stay = λ w ns n. refl;
    trans = λ u v w h k ns n. k ns n ∙ h ns n;
    get = s.get;
    create = s.create;
    update = s.update;
    delete = s.delete;
    delete_all_of = s.delete_all_of;
    list_pods = s.list_pods;
    get_terraform = s.get_terraform;
    update_status = s.update_status;
  }

  -- The resource has the spec that is stored.
  abbrev Fits : Terraform → World → Type 0
  Fits tf w = s.spec_of tf.namespace tf.name w ≡ some tf.spec

  write_result-moves :
      (before : String) (w : World) (x : Option ApiError × World)
      → Same w x.1
      → Same w (write_result c before x).1
  write_result-moves before w (none, v) h = h
  write_result-moves before w (some e, v) h = h

  update-moves : (tf : Terraform) (w : World) → Fits tf w → Same w (update c tf w).1
  unfolding update
  update-moves tf w h =
      write_result-moves _ w (c.update_terraform tf w) (λ ns n. s.written tf w ns n h)

  finalized-Fits :
      (tf tf' : Terraform) (changed : Bool) (w : World)
      → update_finalizer tf ≡ some (tf', changed)
      → Fits tf w
      → Fits tf' w
  finalized-Fits tf tf' changed w e h =
      let (ns, n, spec) = update_finalizer-keeps tf tf' changed e in
      ap (λ a. s.spec_of a tf'.name w) ns
      ∙ ap (λ a. s.spec_of tf.namespace a w) n
      ∙ h
      ∙ ap some (sym spec)

  final_update-moves :
      (tf : Terraform) (w : World) (o : Option (Terraform × Bool))
      → update_finalizer tf ≡ o
      → Fits tf w
      → Same w (final_update c p inherited now o w).1
  final_update-moves tf w none e h = λ ns n. refl
  final_update-moves tf w (some (tf', changed)) e h =
      update-moves tf' w (finalized-Fits tf tf' changed w e h)

  after_finalizers-moves :
      (suffix : String) (tf : Terraform) (w : World) (o : Option (Terraform × Bool))
      → update_finalizer tf ≡ o
      → Fits tf w
      → Same w (after_finalizers c p inherited now suffix o w).1
  after_finalizers-moves suffix tf w none e h = λ ns n. refl
  after_finalizers-moves suffix tf w (some (tf', true)) e h =
      go_on-moves c Same-Allows w (update c tf' w) (λ _. pure done)
        (update-moves tf' w (finalized-Fits tf tf' true w e h)) (λ _. Moves-pure c Same-Allows done)
  after_finalizers-moves suffix tf w (some (tf', false)) e h =
      (proceed-Moves c Same-Allows p inherited now suffix tf').at w

  then-moves :
      (w : World) (x : Result (Unit {0}) × World) (m : M World (Unit {0}))
      → Same w x.1
      → ((v : World) → Same w v → Same v (m v).1)
      → Same w (go_on x (λ _. m)).1
  then-moves w (ok u, v) m h k = λ ns n. k v h ns n ∙ h ns n
  then-moves w (err e, v) m h k = h
  then-moves w (panic, v) m h k = h

  if-moves :
      (b : Bool) (m n : M World Requeue) (w : World)
      → Same w (m w).1
      → Same w (n w).1
      → Same w ((if b then m else n) w).1
  if-moves true m n w h k = h
  if-moves false m n w h k = k

  -- The end of a resource: the locks first, the finalizer then.
  final_delete-moves :
      (tf : Terraform) (w : World) → Fits tf w → Same w (final_delete c p inherited now tf w).1
  unfolding final_delete
  final_delete-moves tf w h =
      let unlocked = (update_secret_finalizer-Moves c Same-Allows p.finalizers tf).at w in
      let last = final_update c p inherited now (update_finalizer tf) in
      go_on-moves c Same-Allows w ((update_secret_finalizer c p.finalizers tf >> last) w)
        (λ _. pure done)
        (then-moves w (update_secret_finalizer c p.finalizers tf w) last unlocked
          (λ v k. final_update-moves tf v (update_finalizer tf) refl (k tf.namespace tf.name ∙ h)))
        (λ _. Moves-pure c Same-Allows done)

  reconcile_resource-moves :
      (suffix : String) (tf : Terraform) (w : World)
      → Fits tf w
      → Same w (reconcile_resource c p inherited now suffix tf w).1
  unfolding reconcile_resource
  reconcile_resource-moves suffix tf w h =
      if-moves (phase_eq tf.status.phase deleted) _ _ w (final_delete-moves tf w h)
        (after_finalizers-moves suffix tf w (update_finalizer tf) refl h)

  read-moves :
      (suffix : String) (w : World) (x : Result Terraform × World)
      → Same w x.1
      → ((tf : Terraform) (v : World) → x ≡ (ok tf, v) → Fits tf v)
      → Same w
          (caught x
            (λ e. if is_missing e then pure done else fail e)
            (reconcile_resource c p inherited now suffix)).1
  read-moves suffix w (ok tf, v) h f =
      λ ns n. reconcile_resource-moves suffix tf v (f tf v refl) ns n ∙ h ns n
  read-moves suffix w (err e, v) h f = λ ns n.
      (Moves-if c Same-Allows (is_missing e) (pure done) (fail e) (Moves-pure c Same-Allows done)
          (Moves-fail c Same-Allows e)).at
        v ns n
      ∙ h ns n
  read-moves suffix w (panic, v) h f = h

  -- While nobody else writes, a reconcile leaves the spec of every resource as it was, whatever it
  -- comes to: though it fills in the images of the spec in memory, what it writes of a resource are
  -- finalizers and status.
  pub read_and_reconcile-spec :
      (ns n suffix : String) (w : World) (namespace name : String)
      → s.spec_of namespace name (read_and_reconcile c p inherited now ns n suffix w).1
        ≡ s.spec_of namespace name w
  unfolding read_and_reconcile
  read_and_reconcile-spec ns n suffix w =
      read-moves suffix w (get_terraform_resource c ns n 3 w)
        ((get_terraform_resource-Moves c Same-Allows ns n 3).at w)
        (λ tf v e. get_terraform_resource-reads c Fits s.read ns n 3 w v tf e)
