-- ===== src/Controller/Finalizers/Moving.antt =====
-- What the locks of git secrets do to the world at most.
use terraform_operator.Prelude.{
  String, Bool, List, [], ◌∷◌, if◌then◌else◌, Option, none, some, ◌&&◌, not, ◌≡◌, arith,
}
use terraform_operator.Api.Resource.{Terraform}
use terraform_operator.Cluster.{Secret, secret}
use terraform_operator.Cluster.Effects.{M}
use terraform_operator.Cluster.Client.{Client, ControllerUtil, Got, got, failed}
use terraform_operator.Cluster.Moving.{
  Moves, Allows, Moves-pure, Moves-crash, Moves-bind, Moves-then, Moves-if, update_object-Moves,
}
use terraform_operator.Controller.Finalizers.{
  GitSecret, loaded, load_secret, with_finalizers, lock_git_secret_deletion,
  unlock_git_secret_deletion, set_locks, for_secrets, update_finalizer, remove_finalizer,
  get_git_secrets, update_secret_finalizer,
}

module _ (c : Client) {R : c.World → c.World → Type 0} (a : Allows c R) where
  open c use {World}

  loaded-moves : (w : World) (x : Got Secret × World) → R w x.1 → R w (loaded x).1
  loaded-moves w (got s, v) h = h
  loaded-moves w (failed e, v) h = h

  pub load_secret-Moves : (name namespace : String) → Moves R (load_secret c name namespace)
  unfolding load_secret
  load_secret-Moves name namespace = record {
    at = λ w. loaded-moves w (c.get secret _ name w) (a.get secret _ name w);
  }

  module _ (u : ControllerUtil) where
    lock-Moves :
        (name namespace key : String) → Moves R (lock_git_secret_deletion c u name namespace key)
    unfolding lock_git_secret_deletion
    lock-Moves name namespace key =
        Moves-bind c a (load_secret c name namespace) _ (load_secret-Moves name namespace) (λ s.
          Moves-if c a (not (u.contains_finalizer s.meta.finalizers key)) _ _
            (update_object-Moves c a secret
              (with_finalizers s (u.add_finalizer s.meta.finalizers key)))
            (Moves-pure c a tt))

    unlock-Moves :
        (name namespace key : String) → Moves R (unlock_git_secret_deletion c u name namespace key)
    unfolding unlock_git_secret_deletion
    unlock-Moves name namespace key =
        Moves-bind c a (load_secret c name namespace) _ (load_secret-Moves name namespace) (λ s.
          Moves-if c a (u.contains_finalizer s.meta.finalizers key) _ _
            (update_object-Moves c a secret
              (with_finalizers s (u.remove_finalizer s.meta.finalizers key)))
            (Moves-pure c a tt))

    set_locks-Moves :
        (is_deleted : Bool) (key : String) (secrets : List GitSecret)
        → Moves R (set_locks c u is_deleted key secrets)
    unfolding set_locks
    set_locks-Moves is_deleted key [] = Moves-pure c a tt
    set_locks-Moves is_deleted key (m ∷ secrets) =
        Moves-then c a
          (if m.should_be_locked && not is_deleted
            then lock_git_secret_deletion c u m.name m.namespace key
            else unlock_git_secret_deletion c u m.name m.namespace key)
          (set_locks c u is_deleted key secrets)
          (Moves-if c a (m.should_be_locked && not is_deleted) _ _
            (lock-Moves m.name m.namespace key) (unlock-Moves m.name m.namespace key))
          (set_locks-Moves is_deleted key secrets)

    for_secrets-Moves :
        (f : List GitSecret → M World (Unit {0})) (secrets : Option (List GitSecret))
        → ((l : List GitSecret) → Moves R (f l))
        → Moves R (for_secrets c u f secrets)
    for_secrets-Moves f none h = Moves-crash c a
    for_secrets-Moves f (some l) h = h l

    pub update_secret_finalizer-Moves : (tf : Terraform) → Moves R (update_secret_finalizer c u tf)
    unfolding update_secret_finalizer
    update_secret_finalizer-Moves tf =
        for_secrets-Moves _ (get_git_secrets tf) (set_locks-Moves _ _)

-- `updateFinalizer` changes the finalizers alone.
pub update_finalizer-keeps :
    (tf tf' : Terraform) (changed : Bool)
    → update_finalizer tf ≡ some (tf', changed)
    → (tf'.namespace ≡ tf.namespace) × (tf'.name ≡ tf.name) × (tf'.spec ≡ tf.spec)
unfolding update_finalizer remove_finalizer
update_finalizer-keeps tf tf' changed e = ground arith
