-- ===== src/Controller/Setup/Moving.antt =====
-- What setupAndRun of pkg/controllers/terraform_controller.go does to the world at most.
use terraform_operator.Prelude.{String, List, [], ◌∷◌, if◌then◌else◌, Option, none, some}
use terraform_operator.Api.Spec.{StringMap, ScmAuthMethod, GitHttps, SecretRef}
use terraform_operator.Api.Resource.{Terraform}
use terraform_operator.Cluster.Effects.{Result, pure, fail, crash, attempt}
use terraform_operator.Cluster.Client.{Client}
use terraform_operator.Cluster.Moving.{
  Moves, Allows, Moves-pure, Moves-fail, Moves-crash, Moves-bind, Moves-then, Moves-attempt,
  Moves-ignored, Moves-if, Moves-option,
}
use terraform_operator.Controller.Status.{wrapped}
use terraform_operator.Controller.Finalizers.{update_secret_finalizer}
use terraform_operator.Controller.Finalizers.Moving.{update_secret_finalizer-Moves}
use terraform_operator.Controller.GitAccess.{create_git_askpass, format_job_ssh_config}
use terraform_operator.Controller.GitAccess.Moving.{
  create_git_askpass-Moves, format_job_ssh_config-Moves,
}
use terraform_operator.Controller.Cleanup.{reap_plugins}
use terraform_operator.Controller.Cleanup.Moving.{reap_plugins-Moves}
use terraform_operator.Controller.Options.{TaskOptions}
use terraform_operator.Controller.Run.Moving.{run-Moves}
use terraform_operator.Controller.Packages.{Packages}
use terraform_operator.Controller.Setup.{
  lift, token_ref, add_token, add_https, add_askpass, parse_downloads, downloads_of, fill_in,
  scm_hosts, choose_module, is_changed, is_new_generation, is_first_install, setup_and_run,
}

module _ (c : Client) {R : c.World → c.World → Type 0} (a : Allows c R) (p : Packages) where
  open c use {World}

  lift-Moves : {A : Type 0} (r : Result A) → Moves {W = World} R (lift r)
  lift-Moves r = record { at = a.stay }

  add_token-Moves :
      (found : Option String) (ref : SecretRef) (secrets : StringMap)
      → Moves R (add_token c p found ref secrets)
  add_token-Moves (some found) ref secrets = Moves-pure c a secrets
  add_token-Moves none ref secrets =
      Moves-bind c a (create_git_askpass c p.askpass (token_ref ref)) _
        (create_git_askpass-Moves c a p.askpass (token_ref ref)) (λ script. Moves-pure c a _)

  add_https-Moves :
      (https : Option GitHttps) (secrets : StringMap) → Moves R (add_https c p https secrets)
  add_https-Moves none secrets = Moves-pure c a secrets
  add_https-Moves (some https) secrets = add_token-Moves _ https.token_secret_ref secrets

  add_askpass-Moves :
      (methods : List ScmAuthMethod) (secrets : StringMap)
      → Moves R (add_askpass c p methods secrets)
  unfolding add_askpass
  add_askpass-Moves [] secrets = Moves-pure c a secrets
  add_askpass-Moves (m ∷ methods) secrets = Moves-option c a m.git crash _ (Moves-crash c a) (λ git.
      Moves-bind c a (add_https c p git.https secrets) _ (add_https-Moves git.https secrets)
        (λ secrets'. add_askpass-Moves methods secrets'))

  fill_in-Moves :
      (hosts : StringMap) (tf : Terraform) (r : TaskOptions) → Moves R (fill_in c p hosts tf r)
  unfolding fill_in
  fill_in-Moves hosts tf r =
      Moves-then c a
        (attempt (update_secret_finalizer c p.finalizers tf) (λ e. pure tt) (λ _. pure tt)) _
        (Moves-ignored c a (update_secret_finalizer c p.finalizers tf)
          (update_secret_finalizer-Moves c a p.finalizers tf))
        (Moves-then c a
          (attempt (reap_plugins p.md5 c tf) (λ e. pure (tt {0})) (λ _. pure (tt {0}))) _
          (Moves-ignored c a (reap_plugins p.md5 c tf) (reap_plugins-Moves p.md5 c a tf))
          (Moves-bind c a (add_askpass c p tf.spec.scm_auth_methods r.secret_data) _
            (add_askpass-Moves tf.spec.scm_auth_methods r.secret_data)
            (λ secrets.
              Moves-bind c a
                (attempt (format_job_ssh_config c tf)
                  (λ e. fail (wrapped "error setting up sshconfig: " e)) (λ keys. pure keys))
                _
                (Moves-attempt c a (format_job_ssh_config c tf) _ _
                  (format_job_ssh_config-Moves c a tf) (λ e. Moves-fail c a _)
                  (λ keys. Moves-pure c a keys))
                (λ keys.
                  Moves-bind c a (lift (parse_downloads p hosts (downloads_of tf.spec.setup) [])) _
                    (lift-Moves _)
                    (λ items.
                      Moves-bind c a (lift (p.addresses_json items)) _ (lift-Moves _)
                        (λ text. Moves-pure c a _))))))

  pub setup_and_run-Moves : (tf : Terraform) (r : TaskOptions) → Moves R (setup_and_run c p tf r)
  unfolding setup_and_run
  setup_and_run-Moves tf r =
      let reason = tf.status.stage.reason in
      let hosts = scm_hosts tf.spec.scm_auth_methods [] in
      Moves-bind c a (lift (choose_module p hosts tf.spec.terraform_module r)) _ (lift-Moves _)
        (λ located.
          Moves-bind c a (if is_changed reason then fill_in c p hosts tf located else pure located)
            _
            (Moves-if c a (is_changed reason) _ _ (fill_in-Moves hosts tf located)
              (Moves-pure c a located))
            (λ filled.
              run-Moves c a p.global_env tf filled (is_new_generation reason)
                (is_first_install reason)))
