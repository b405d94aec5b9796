-- ===== src/Controller/GitAccess.antt =====
-- What a task needs to reach git: loadPassword, createGitAskpass and formatJobSSHConfig of
-- pkg/controllers/terraform_controller.go.
pub mod Moving
pub mod Keys
pub mod Namespaces
use Prim.Native.String
use terraform_operator.Prelude.{
  String, Bool, true, false, List, [], ◌∷◌, ◌==◌, if◌then◌else◌, Option, none, some, lookup, insert,
}
use terraform_operator.Api.Spec.{StringMap, ScmAuthMethod, SecretRef, ProxyOpts, GitSsh}
use terraform_operator.Api.Resource.{Terraform}
use terraform_operator.Cluster.{Secret, secret}
use terraform_operator.Cluster.Effects.{
  api, message, Result, ok, err, panic, M, pure, fail, crash, ◌>>=◌, ◌>>◌, go_on,
}
use terraform_operator.Cluster.Client.{Client, Got, got, failed}
use terraform_operator.Controller.Status.{wrapped}
use terraform_operator.Controller.Finalizers.{load_secret}

abbrev or_else : String → String → String
or_else text default = if text == "" then default else text

-- The entry of the secret that holds the password; an empty one counts as missing.
password_in : {W : Type 0} → String → Option String → M W String
password_in key none =
    fail (message (String.◌++◌ "unable to locate '" (String.◌++◌ key "' in secret: <nil>")))
password_in key (some password) =
    if password == ""
    then fail (message (String.◌++◌ "unable to locate '" (String.◌++◌ key "' in secret: <nil>")))
    else pure password

read_password : {W : Type 0} → String → Got Secret × W → Result String × W
unfolding password_in
read_password key (got s, w) = password_in key (lookup key s.data_map) w
read_password key (failed e, w) = (err (wrapped "could not get secret: " (api e)), w)

-- The block of a host in the SSH configuration.
host_block : (host : String) → Bool → String
host_block host require_proxy = String.◌++◌ "\nHost " (
    String.◌++◌ host (
      String.◌++◌ "\n\tStrictHostKeyChecking no\n\tUserKnownHostsFile=/dev/null\n\tHostname " (
        String.◌++◌ host (
          String.◌++◌ "\n\tIdentityFile ~/.ssh/"
            (String.◌++◌ host (if require_proxy then "\n\tProxyJump proxy" else "\n"))))))

proxy_block : ProxyOpts → String
proxy_block tunnel =
    String.◌++◌ "Host proxy\n\tStrictHostKeyChecking no\n\tUserKnownHostsFile=/dev/null\n\tUser " (
      String.◌++◌ tunnel.user (
        String.◌++◌ "\n\tHostname "
          (String.◌++◌ tunnel.host "\n\tIdentityFile ~/.ssh/proxy_key\n")))

-- `data["config"]`, which is empty if it is missing.
abbrev config_of : Option String → String
config_of none = ""
config_of (some text) = text

abbrev pub with_host : (host key : String) → Bool → StringMap → StringMap
unfolding host_block
with_host host key require_proxy entries = insert host key (
    insert "config"
      (String.◌++◌ (config_of (lookup "config" entries)) (host_block host require_proxy)) entries)

module _ (c : Client) where
  open c use {World}

  unfoldable pub load_password : (key name namespace : String) → M World String
  unfolding read_password
  load_password key name namespace w = read_password key (c.get secret namespace name w)

  -- `script` is the text of the askpass script for a token, which another package lays out.
  abbrev token_in : (String → String) → (key : String) → Secret → M World String
  token_in script key s = elim (lookup key s.data_map) [
    | none ↦
        fail (message (String.◌++◌ "secret '" (String.◌++◌ s.meta.name "' did not contain ''")))
    | some token ↦ pure (script token)
  ]

  unfoldable pub create_git_askpass : (String → String) → SecretRef → M World String
  unfolding load_secret
  create_git_askpass script ref = do
    s ← load_secret c ref.name ref.namespace
    token_in script ref.key s

  abbrev pub load_key : Terraform → SecretRef → M World String
  load_key tf ref =
      load_password (or_else ref.key "id_rsa") ref.name (or_else ref.namespace tf.namespace)

  -- The loop over `spec.scmAuthMethods`; a method with no git section is a panic.
  add_methods : Terraform → StringMap → List ScmAuthMethod → M World StringMap
  unfolding load_password
  add_methods tf entries [] = pure entries
  add_methods tf entries (m ∷ methods) = elim m.git [
    | none ↦ crash
    | some git ↦ elim git.ssh [
      | none ↦ add_methods tf entries methods
      | some ssh ↦ load_key tf ssh.ssh_key_secret_ref >>= λ key.
          add_methods tf (with_host m.host key ssh.require_proxy entries) methods
    ]
  ]

  unfoldable pub format_job_ssh_config : Terraform → M World StringMap
  unfolding add_methods proxy_block load_password
  format_job_ssh_config tf = elim tf.spec.ssh_tunnel [
    | none ↦ add_methods tf [] tf.spec.scm_auth_methods
    | some tunnel ↦ load_key tf tunnel.ssh_key_secret_ref >>= λ key.
        add_methods tf (("config", proxy_block tunnel) ∷ ("proxy_key", key) ∷ [])
          tf.spec.scm_auth_methods
  ]
