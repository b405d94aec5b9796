-- ===== src/Tests/Git.antt =====
-- The access to git at concrete inputs.
use terraform_operator.Prelude.{ℕ, String, true, false, [], ◌∷◌, ◌≡◌, refl, some, none}
use terraform_operator.Api.Task.{run_plan}
use terraform_operator.Api.Stage.{running, state_complete}
use terraform_operator.Api.Spec.{StringMap, ScmAuthMethod, SecretRef}
use terraform_operator.Api.Resource.{Terraform}
use terraform_operator.Cluster.{
  Kind, config_map, secret, service_account, role, role_binding, claim, pod, job, Object,
}
use terraform_operator.Cluster.Effects.{not_found, err, api}
use terraform_operator.Cluster.Client.{Client, Got, got, failed}
use terraform_operator.Controller.Finalizers.{git_secret}
use terraform_operator.Controller.GitAccess.{with_host, create_git_askpass}
use terraform_operator.Controller.GitAccess.Namespaces.{create_git_askpass-default}
use terraform_operator.Tests.Fixtures.{site, stage_of}
use terraform_operator.Tests.Store.{blank_meta, store, stored}

-- A cluster whose secrets all hold one SSH key.
abbrev key_get : (kind : Kind) → String → String → ℕ → Got (Object kind) × ℕ
key_get secret ns n w =
    (got (record { meta = blank_meta ns n; data_map = ("id_rsa", "pem") ∷ [] }), w)
key_get config_map ns n w = (failed not_found, w)
key_get service_account ns n w = (failed not_found, w)
key_get role ns n w = (failed not_found, w)
key_get role_binding ns n w = (failed not_found, w)
key_get claim ns n w = (failed not_found, w)
key_get pod ns n w = (failed not_found, w)
key_get job ns n w = (failed not_found, w)

abbrev keyed : Client
keyed = record {
  World = ℕ;
  get = key_get;
  create = λ kind o w. (none, w);
  update = λ kind o w. (none, w);
  delete = λ kind o w. (none, w);
  delete_all_of = λ kind ns cs w. (none, w);
  list_pods = λ ns cs w. (got [], w);
  get_terraform = λ ns n w. (failed not_found, w);
  update_terraform = λ tf w. (none, w);
  update_status = λ tf w. (none, w);
}

abbrev deploy_key : SecretRef
deploy_key = record { name = "deploy"; namespace = ""; key = ""; lock_secret_deletion = true }

abbrev ssh_method : ScmAuthMethod
ssh_method = record {
  host = "github.com";
  git = some (record {
    ssh = some (record { require_proxy = false; ssh_key_secret_ref = deploy_key });
    https = none;
  });
}

abbrev plain : Terraform
plain = site running (stage_of 2 state_complete run_plan)

abbrev over_ssh : Terraform
over_ssh = record plain { spec = record (plain.spec) { scm_auth_methods = ssh_method ∷ [] } }

abbrev config : StringMap
config = with_host "github.com" "pem" false []

abbrev same_text : String → String
same_text token = token

askpass_example :
    (create_git_askpass store same_text deploy_key [] ≡ (err (api not_found), []))
    × ((git_secret plain deploy_key).namespace ≡ "apps")
unfolding stored
askpass_example =
    create_git_askpass-default store plain same_text deploy_key not_found [] [] refl refl
