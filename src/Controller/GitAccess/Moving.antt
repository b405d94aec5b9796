-- ===== src/Controller/GitAccess/Moving.antt =====
-- What reading the secrets for git does to the world at most.
use terraform_operator.Prelude.{String, List, [], ◌∷◌, Option, none, some, ◌==◌, lookup}
use terraform_operator.Api.Spec.{StringMap, ScmAuthMethod, SecretRef}
use terraform_operator.Api.Resource.{Terraform}
use terraform_operator.Cluster.{Secret, secret}
use terraform_operator.Cluster.Effects.{pure, crash}
use terraform_operator.Cluster.Client.{Client, Got, got, failed}
use terraform_operator.Cluster.Moving.{
  Moves, Allows, Moves-pure, Moves-fail, Moves-crash, Moves-bind, Moves-if, Moves-option,
}
use terraform_operator.Controller.Finalizers.{load_secret}
use terraform_operator.Controller.Finalizers.Moving.{load_secret-Moves}
use terraform_operator.Controller.GitAccess.{
  password_in, read_password, load_password, token_in, create_git_askpass, load_key, with_host,
  add_methods, format_job_ssh_config,
}

module _ (c : Client) {R : c.World → c.World → Type 0} (a : Allows c R) where
  open c use {World}

  password_in-Moves : (key : String) (o : Option String) → Moves {W = World} R (password_in key o)
  unfolding password_in
  password_in-Moves key none = Moves-fail c a _
  password_in-Moves key (some password) =
      Moves-if c a (password == "") _ _ (Moves-fail c a _) (Moves-pure c a password)

  read_password-moves :
      (key : String) (w : World) (x : Got Secret × World) → R w x.1 → R w (read_password key x).1
  unfolding read_password
  read_password-moves key w (got s, v) h =
      a.trans w v _ h ((password_in-Moves key (lookup key s.data_map)).at v)
  read_password-moves key w (failed e, v) h = h

  load_password-Moves : (key name namespace : String) → Moves R (load_password c key name namespace)
  unfolding load_password
  load_password-Moves key name namespace = record {
    at = λ w.
        read_password-moves key w (c.get secret namespace name w) (a.get secret namespace name w);
  }

  pub create_git_askpass-Moves :
      (script : String → String) (ref : SecretRef) → Moves R (create_git_askpass c script ref)
  unfolding create_git_askpass
  create_git_askpass-Moves script ref =
      Moves-bind c a (load_secret c ref.name ref.namespace) (token_in c script ref.key)
        (load_secret-Moves c a ref.name ref.namespace)
        (λ s.
          Moves-option c a (lookup ref.key s.data_map) _ (λ token. pure (script token))
            (Moves-fail c a _) (λ token. Moves-pure c a (script token)))

  load_key-Moves : (tf : Terraform) (ref : SecretRef) → Moves R (load_key c tf ref)
  load_key-Moves tf ref = load_password-Moves _ _ _

  add_methods-Moves :
      (tf : Terraform) (entries : StringMap) (methods : List ScmAuthMethod)
      → Moves R (add_methods c tf entries methods)
  unfolding add_methods
  add_methods-Moves tf entries [] = Moves-pure c a entries
  add_methods-Moves tf entries (m ∷ methods) =
      Moves-option c a m.git crash _ (Moves-crash c a) (λ git.
        Moves-option c a git.ssh (add_methods c tf entries methods) _
          (add_methods-Moves tf entries methods)
          (λ ssh.
            Moves-bind c a (load_key c tf ssh.ssh_key_secret_ref) _
              (load_key-Moves tf ssh.ssh_key_secret_ref)
              (λ key.
                add_methods-Moves tf (with_host m.host key ssh.require_proxy entries) methods)))

  pub format_job_ssh_config-Moves : (tf : Terraform) → Moves R (format_job_ssh_config c tf)
  unfolding format_job_ssh_config
  format_job_ssh_config-Moves tf =
      Moves-option c a tf.spec.ssh_tunnel (add_methods c tf [] tf.spec.scm_auth_methods) _
        (add_methods-Moves tf [] tf.spec.scm_auth_methods)
        (λ tunnel.
          Moves-bind c a (load_key c tf tunnel.ssh_key_secret_ref) _
            (load_key-Moves tf tunnel.ssh_key_secret_ref)
            (λ key. add_methods-Moves tf _ tf.spec.scm_auth_methods))
