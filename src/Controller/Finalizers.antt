-- ===== src/Controller/Finalizers.antt =====
-- Finalizers on the resource and on its git secrets: updateFinalizer, getGitSecrets,
-- updateSecretFinalizer, lockGitSecretDeletion, unlockGitSecretDeletion and loadSecret of
-- pkg/controllers/terraform_controller.go.
pub mod Moving
pub mod Resource
pub mod Secrets
use Prim.Native.String
use terraform_operator.Prelude.{
  String, Bool, true, false, List, [], ◌∷◌, ◌++◌, ◌==◌, if◌then◌else◌, Option, none, some, ◌&&◌,
  ◌||◌, not, map,
}
use terraform_operator.Utils.{list_contains_str, list_remove_str, truncate_resource_name}
use terraform_operator.Api.Stage.{StatusPhase, deleted, phase_eq}
use terraform_operator.Api.Spec.{SecretRef, GitScm, GitSsh, GitHttps, ScmAuthMethod}
use terraform_operator.Api.Resource.{Terraform}
use terraform_operator.Cluster.{Secret, secret, ObjectMeta}
use terraform_operator.Cluster.Effects.{
  ApiError, Error, api, Result, ok, err, panic, M, pure, fail, crash, ◌>>=◌, ◌>>◌, go_on,
}
use terraform_operator.Cluster.Client.{Client, ControllerUtil, Got, got, failed, update_object}

abbrev pub terraform_finalizer : String
terraform_finalizer = "finalizer.tf.galleybytes.com"

abbrev pub is_empty_list : List String → Bool
is_empty_list [] = true
is_empty_list (x ∷ xs) = false

-- The finalizer is taken off; `none` is the panic of `ListRemoveStr`.
remove_finalizer : Terraform → Option (Terraform × Bool)
remove_finalizer tf = elim (list_remove_str tf.finalizers terraform_finalizer) [
  | none ↦ none
  | some finalizers ↦ some (record tf { finalizers = finalizers }, true)
]

-- `updateFinalizer`: the resource, and whether its finalizers have changed.
unfoldable pub update_finalizer : Terraform → Option (Terraform × Bool)
unfolding remove_finalizer
update_finalizer tf =
    let has = list_contains_str tf.finalizers terraform_finalizer in
    if phase_eq tf.status.phase deleted && has
    then remove_finalizer tf
    else if tf.spec.ignore_delete && not (is_empty_list tf.finalizers) && has
    then remove_finalizer tf
    else if not tf.spec.ignore_delete && not has
    then some (record tf { finalizers = tf.finalizers ++ terraform_finalizer ∷ [] }, true)
    else some (tf, false)

pub record GitSecret : Type 0 where
  pub name : String
  pub namespace : String
  pub should_be_locked : Bool

unfoldable pub git_secret : Terraform → SecretRef → GitSecret
git_secret tf ref = record {
  name = ref.name;
  namespace = if ref.namespace == "" then tf.namespace else ref.namespace;
  should_be_locked = ref.lock_secret_deletion && not tf.spec.ignore_delete;
}

https_secrets : Terraform → Option GitHttps → List GitSecret
unfolding git_secret
https_secrets tf none = []
https_secrets tf (some https) = git_secret tf https.token_secret_ref ∷ []

ssh_secrets : Terraform → Option GitSsh → List GitSecret
unfolding git_secret
ssh_secrets tf none = []
ssh_secrets tf (some ssh) = git_secret tf ssh.ssh_key_secret_ref ∷ []

method_secrets : Terraform → GitScm → List GitSecret
unfolding https_secrets ssh_secrets
method_secrets tf git = https_secrets tf git.https ++ ssh_secrets tf git.ssh

-- The loop reads `m.Git` with no test: `none` is the panic on a method without git.
secrets_from : Terraform → List GitSecret → List ScmAuthMethod → Option (List GitSecret)
unfolding method_secrets
secrets_from tf secrets [] = some secrets
secrets_from tf secrets (m ∷ methods) = elim m.git [
  | none ↦ none
  | some git ↦ secrets_from tf (secrets ++ method_secrets tf git) methods
]

unfoldable pub get_git_secrets : Terraform → Option (List GitSecret)
unfolding secrets_from
get_git_secrets tf = secrets_from tf [] tf.spec.scm_auth_methods

abbrev pub loaded : {W : Type 0} → Got Secret × W → Result Secret × W
loaded (got s, w) = (ok s, w)
loaded (failed e, w) = (err (api e), w)

unfoldable pub load_secret : (c : Client) → (name namespace : String) → M c.World Secret
load_secret c name namespace w =
    loaded (c.get secret (if namespace == "" then "default" else namespace) name w)

abbrev with_finalizers : Secret → List String → Secret
with_finalizers s finalizers = record s { meta = record (s.meta) { finalizers = finalizers } }

module _ (c : Client) (u : ControllerUtil) where
  open c use {World}

  unfoldable pub lock_git_secret_deletion : (name namespace key : String) → M World (Unit {0})
  unfolding load_secret
  lock_git_secret_deletion name namespace key = do
    s ← load_secret c name namespace
    if not (u.contains_finalizer s.meta.finalizers key)
        then update_object c secret (with_finalizers s (u.add_finalizer s.meta.finalizers key))
        else pure tt

  unfoldable pub unlock_git_secret_deletion : (name namespace key : String) → M World (Unit {0})
  unfolding load_secret
  unlock_git_secret_deletion name namespace key = do
    s ← load_secret c name namespace
    if u.contains_finalizer s.meta.finalizers key
        then update_object c secret (with_finalizers s (u.remove_finalizer s.meta.finalizers key))
        else pure tt

  -- The loop of `updateSecretFinalizer`; the first error ends it.
  set_locks : Bool → String → List GitSecret → M World (Unit {0})
  unfolding lock_git_secret_deletion unlock_git_secret_deletion
  set_locks is_deleted key [] = pure tt
  set_locks is_deleted key (m ∷ secrets) = do
    if m.should_be_locked && not is_deleted
        then lock_git_secret_deletion m.name m.namespace key
        else unlock_git_secret_deletion m.name m.namespace key
    set_locks is_deleted key secrets

  abbrev for_secrets :
      (List GitSecret → M World (Unit {0})) → Option (List GitSecret) → M World (Unit {0})
  for_secrets f none = crash
  for_secrets f (some secrets) = f secrets

  unfoldable pub update_secret_finalizer : Terraform → M World (Unit {0})
  unfolding set_locks get_git_secrets
  update_secret_finalizer tf =
      let key = truncate_resource_name (String.◌++◌ "finalizer.tf.galleybytes.com/" tf.name) 53 in
      for_secrets (set_locks (phase_eq tf.status.phase deleted) key) (get_git_secrets tf)
