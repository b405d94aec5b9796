-- ===== src/Tests/Setups.antt =====
-- Setting up tasks at concrete inputs.
use terraform_operator.Prelude.{
  ◌+◌, ℕ, String, true, false, [], ◌∷◌, ◌++◌, ◌≡◌, ◌≢◌, ◌⊎◌, refl, arith, none, some, eq_iff,
  lookup, insert, decimal,
}
use terraform_operator.Api.Task.{run_setup, run_plan}
use terraform_operator.Api.Stage.{initializing, state_initializing}
use terraform_operator.Api.Spec.{ScmAuthMethod, SecretRef, GitHttps, GitScm}
use terraform_operator.Api.Resource.{Terraform}
use terraform_operator.Cluster.{
  Kind, config_map, secret, service_account, role, role_binding, claim, pod, job, Object,
}
use terraform_operator.Cluster.Effects.{ok, not_found}
use terraform_operator.Cluster.Client.{Client, ControllerUtil, Got, got, failed}
use terraform_operator.Controller.Options.{Inherited, TaskOptions, new_task_options}
use terraform_operator.Controller.Objects.{
  generate_secret, generate_service_account, generate_role, generate_role_binding,
  generate_config_map, generate_pvc,
}
use terraform_operator.Controller.PodTemplate.{generate_pod, pod_of}
use terraform_operator.Controller.GitAccess.{create_git_askpass}
use terraform_operator.Controller.Run.{GlobalEnv, check_all}
use terraform_operator.Controller.Packages.{Packages}
use terraform_operator.Controller.Setup.{setup_and_run, fill_in, filled, add_askpass, token_ref}
use terraform_operator.Controller.Setup.Scripts.{IsPresent, fill_in-scripts}
use terraform_operator.Controller.Setup.Tokens.{add_askpass-first}
use terraform_operator.Controller.Setup.Ready.{setup_and_run-check_all}
use terraform_operator.Tests.Fixtures.{site, stage_of, plain_options}
use terraform_operator.Tests.Store.{Store, stored, remove, store, store-IsQuiet, blank_meta}
use terraform_operator.Tests.Addresses.{one_host, plain_getter}

abbrev pub no_env : GlobalEnv
no_env = record { from_configmap_data = []; from_secret_data = []; suffix = "env" }

abbrev pub no_finalizers : ControllerUtil
no_finalizers = record {
  contains_finalizer = λ l s. false;
  add_finalizer = λ l s. l ++ s ∷ [];
  remove_finalizer = λ l s. l;
}

abbrev pub packages : Packages
packages = record {
  md5 = λ s. s;
  askpass = λ s. s;
  finalizers = no_finalizers;
  net = one_host;
  getter = plain_getter;
  selector_json = λ s. ok "{}";
  addresses_json = λ s. ok "[]";
  terraform_script = "terraform";
  setup_script = "setup";
  noop_script = "noop";
  global_env = no_env;
  require_approval_image = "approval:1";
}

abbrev pub nothing_inherited : Inherited
nothing_inherited = record { affinity = none; node_selector = []; tolerations = [] }

-- A new resource with an inline module, at its first stage.
abbrev pub created : Terraform
created =
    let tf = site initializing (stage_of 2 state_initializing run_setup) in
    record tf {
      spec = record (tf.spec) {
        terraform_module = record (tf.spec.terraform_module) { inline = "terraform {}" };
        task_options = [];
      };
      status = record (tf.status) {
        stage = record (tf.status.stage) { reason = "TF_RESOURCE_CREATED" };
      };
    }

fill_in_ok :
    fill_in store packages [] created plain_options []
    ≡ (ok (filled store packages created plain_options [] [] "[]"), [])
unfolding fill_in stored filled
fill_in_ok = refl

plan_ne : ◌≢◌ {A = String} run_plan "*"
plan_ne e = ground (arith, eq_iff run_plan "*")

scripts_example :
    let (_, options) =
      new_task_options packages.md5 created run_plan 2 [] nothing_inherited "approval:1" in
    let file = options.inline_task_execution_file in
    (file ≡ "")
    ⊎ IsPresent file
        (filled store packages created plain_options [] [] "[]").main_module_plugin_data
scripts_example =
    fill_in-scripts store packages [] created plain_options
      (filled store packages created plain_options [] [] "[]") [] [] run_plan 2 [] nothing_inherited
      "approval:1" fill_in_ok plan_ne

abbrev token_secret : SecretRef
token_secret = record { name = "deploy"; namespace = "apps"; key = ""; lock_secret_deletion = true }

abbrev over_https : GitHttps
over_https = record { require_proxy = false; token_secret_ref = token_secret }

abbrev https_git : GitScm
https_git = record { ssh = none; https = some over_https }

abbrev https_method : ScmAuthMethod
https_method = record { host = "github.com"; git = some https_git }

abbrev bare_git : GitScm
bare_git = record { ssh = none; https = none }

abbrev bare_method : ScmAuthMethod
bare_method = record { host = "example.com"; git = some bare_git }

-- A cluster whose secrets all hold one token.
abbrev token_get : (kind : Kind) → String → String → ℕ → Got (Object kind) × ℕ
token_get secret ns n w =
    (got (record { meta = blank_meta ns n; data_map = ("token", "t0") ∷ [] }), w + 1)
token_get config_map ns n w = (failed not_found, w)
token_get service_account ns n w = (failed not_found, w)
token_get role ns n w = (failed not_found, w)
token_get role_binding ns n w = (failed not_found, w)
token_get claim ns n w = (failed not_found, w)
token_get pod ns n w = (failed not_found, w)
token_get job ns n w = (failed not_found, w)

abbrev tokens : Client
tokens = record {
  World = ℕ;
  get = token_get;
  create = λ kind o w. (none, w);
  update = λ kind o w. (none, w);
  delete = λ kind o w. (none, w);
  delete_all_of = λ kind ns cs w. (none, w);
  list_pods = λ ns cs w. (got [], w);
  get_terraform = λ ns n w. (failed not_found, w);
  update_terraform = λ tf w. (none, w);
  update_status = λ tf w. (none, w);
}

added :
    add_askpass tokens packages (bare_method ∷ https_method ∷ https_method ∷ []) [] 0
    ≡ (ok (("gitAskpass", "t0") ∷ []), 1)
unfolding add_askpass lookup insert
added = refl

no_token : lookup {V = String} "gitAskpass" [] ≡ none
unfolding lookup
no_token = refl

first_token_example :
    (script : String) × (create_git_askpass tokens packages.askpass (token_ref token_secret) 0
      ≡ (ok script, 1))
    × (("gitAskpass", "t0") ∷ [] ≡ insert "gitAskpass" script [])
first_token_example =
    add_askpass-first tokens packages (bare_method ∷ []) (https_method ∷ []) https_method https_git
      over_https [] (("gitAskpass", "t0") ∷ []) 0 1 ((bare_git, refl, refl), tt) refl refl no_token
      added

abbrev after : Store
after =
    (pod, "apps", "")
    ∷ (secret, "apps", "site-abcdefgh-v2-outputs")
    ∷ (service_account, "apps", "tf-site-abcdefgh-v2")
    ∷ (role, "apps", "site-abcdefgh-v2")
    ∷ (role_binding, "apps", "site-abcdefgh-v2")
    ∷ (config_map, "apps", "site-abcdefgh-v2")
    ∷ (secret, "apps", "site-abcdefgh-v2")
    ∷ (claim, "apps", "site-abcdefgh")
    ∷ []

abbrev setup_options : Terraform × TaskOptions
setup_options =
    new_task_options packages.md5 created run_setup 2 [] nothing_inherited
      packages.require_approval_image

setup_ok : setup_and_run store packages setup_options.0 setup_options.1 [] ≡ (ok tt, after)
unfolding setup_and_run new_task_options stored remove generate_secret generate_pod pod_of
    generate_service_account generate_role generate_role_binding generate_config_map generate_pvc
    decimal
setup_ok = refl

setup_check_all_example :
    check_all store
      (new_task_options packages.md5 created run_plan 2 [] nothing_inherited
        packages.require_approval_image).1
      after
    ≡ (ok tt, after)
setup_check_all_example =
    setup_and_run-check_all store packages store-IsQuiet created run_setup run_plan 2 2 [] []
      nothing_inherited nothing_inherited [] after refl refl setup_ok
