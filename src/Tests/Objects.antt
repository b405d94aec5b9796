-- ===== src/Tests/Objects.antt =====
-- The finalizers, the objects of a task and the reads of a resource at concrete inputs.
use terraform_operator.Controller.Status.Lagging.{Lags, update_status_with_retry-unconfirmed}
use terraform_operator.Prelude.{
  ◌+◌, zero, suc, eq_iff, ℕ, String, true, false, List, [], ◌∷◌, ◌≡◌, ◌≢◌, refl, arith, some, none,
}
use terraform_operator.Api.Task.{task_lists_are_equal, run_plan}
use terraform_operator.Api.Stage.{is_equal, state_complete, running, deleted}
use terraform_operator.Api.Spec.{ScmAuthMethod, SecretRef}
use terraform_operator.Api.Resource.{Terraform}
use terraform_operator.Cluster.{config_map, secret, service_account, role, role_binding, claim, pod}
use terraform_operator.Cluster.Effects.{ApiError, not_found, ok}
use terraform_operator.Cluster.Client.{Client, Got, got, failed}
use terraform_operator.Controller.Finalizers.{terraform_finalizer, get_git_secrets}
use terraform_operator.Controller.Finalizers.Secrets.{get_git_secrets_panic}
use terraform_operator.Controller.Status.{update_status_with_retry, get_terraform_resource}
use terraform_operator.Controller.Status.Retries.{Reads, get_terraform_resource-Reads}
use terraform_operator.Controller.Objects.{
  generate_secret, generate_service_account, generate_role, generate_role_binding,
  generate_config_map, generate_pvc,
}
use terraform_operator.Controller.PodTemplate.{generate_pod, pod_of}
use terraform_operator.Controller.Run.{GlobalEnv, run}
use terraform_operator.Tests.Fixtures.{site, stage_of, plain_options}
use terraform_operator.Tests.Store.{Store, stored, remove, store}

abbrev fresh : Terraform
fresh = site running (stage_of 2 state_complete run_plan)

abbrev gone : Terraform
gone = site deleted (stage_of 2 state_complete run_plan)

other_ne : ◌≢◌ {A = String} "other" terraform_finalizer
other_ne e = ground (arith, eq_iff "other" terraform_finalizer)

-- A host without a git section, beside one with it.
abbrev token : SecretRef
token = record { name = "token"; namespace = ""; key = "token"; lock_secret_deletion = true }

abbrev https_method : ScmAuthMethod
https_method = record {
  host = "github.com";
  git = some (record {
    ssh = none;
    https = some (record { require_proxy = false; token_secret_ref = token });
  });
}

abbrev with_methods : List ScmAuthMethod → Terraform
with_methods methods = record fresh {
  spec = record (fresh.spec) { scm_auth_methods = methods; ignore_delete = true };
}

git_secrets_panic_example :
    get_git_secrets (with_methods (https_method ∷ record { host = "gitlab.com"; git = none } ∷ []))
    ≡ none
git_secrets_panic_example =
    get_git_secrets_panic
      (with_methods (https_method ∷ record { host = "gitlab.com"; git = none } ∷ [])) refl

-- A client whose next reads fail, as many as its world counts.
busy_get : Terraform → ℕ → Got Terraform × ℕ
busy_get tf zero = (got tf, 0)
busy_get tf (suc w) = (failed (ApiError.other "busy"), w)

abbrev busy : Client
busy = record {
  World = ℕ;
  get = λ kind ns n w. (failed not_found, w);
  create = λ kind o w. (none, w);
  update = λ kind o w. (none, w);
  delete = λ kind o w. (none, w);
  delete_all_of = λ kind ns cs w. (none, w);
  list_pods = λ ns cs w. (got [], w);
  get_terraform = λ ns n w. busy_get fresh w;
  update_terraform = λ tf w. (none, w);
  update_status = λ tf w. (none, w);
}

attempts_example :
    Reads busy "apps" "site" 2 1
      (get_terraform_resource busy "apps" "site" 3 1).0
      (get_terraform_resource busy "apps" "site" 3 1).1
attempts_example = get_terraform_resource-Reads busy "apps" "site" 1

abbrev no_env : GlobalEnv
no_env = record { from_configmap_data = []; from_secret_data = []; suffix = "env" }

abbrev after : Store
after =
    (pod, "apps", "")
    ∷ (secret, "apps", "site-abcdefgh-v2-outputs")
    ∷ (service_account, "apps", "tf-site-abcdefgh-v2")
    ∷ (role, "apps", "site-abcdefgh-v2")
    ∷ (role_binding, "apps", "site-abcdefgh-v2")
    ∷ (config_map, "apps", "site-abcdefgh-v2")
    ∷ (secret, "apps", "site-abcdefgh-v2")
    ∷ (claim, "apps", "site-abcdefgh")
    ∷ []

run_ok : run store no_env fresh plain_options true false [] ≡ (ok tt, after)
unfolding run stored remove generate_secret generate_pod pod_of generate_service_account
    generate_role generate_role_binding generate_config_map generate_pvc
run_ok = refl

-- A server whose reads do not show what is written; its clock moves with each call.
abbrev behind : Terraform → Client
behind kept = record {
  World = ℕ;
  get = λ kind ns n w. (failed not_found, w);
  create = λ kind o w. (none, w);
  update = λ kind o w. (none, w);
  delete = λ kind o w. (none, w);
  delete_all_of = λ kind ns cs w. (none, w);
  list_pods = λ ns cs w. (got [], w);
  get_terraform = λ ns n w. (got kept, suc w);
  update_terraform = λ tf w. (none, w);
  update_status = λ tf w. (none, suc w);
}

abbrev IsTime : (n m : ℕ) → ℕ → Type 0
IsTime n m w = w ≡ n + m

-- The phase that is read back is not the one that was asked for.
behind-Lags : Lags (behind gone) "apps" "site" fresh.status IsTime
unfolding task_lists_are_equal is_equal
behind-Lags = record {
  writes = λ tf n m w h. (suc w, refl, omega arith);
  reads = λ n m w h. (gone, suc w, refl, refl, omega arith);
}

status_unconfirmed_example :
    (v : ℕ) × (update_status_with_retry (behind gone) fresh fresh.status 0 ≡ (ok tt, v))
    × IsTime 10 109 v
status_unconfirmed_example =
    update_status_with_retry-unconfirmed (behind gone) fresh fresh.status IsTime behind-Lags 0 refl
