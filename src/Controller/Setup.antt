-- ===== src/Controller/Setup.antt =====
-- Filling in the data of a task and running it: setupAndRun of
-- pkg/controllers/terraform_controller.go. The goroutine that reaps plugins is run to its end where
-- it is started.
pub mod Moving
pub mod Scripts
pub mod Tokens
pub mod Ready
use Prim.Native.String
use terraform_operator.Prelude.{
  String, Char, code, Bool, false, List, [], ◌∷◌, ◌++◌, ◌==◌, if◌then◌else◌, Option, none, some,
  ◌&&◌, ◌||◌, not, nat_beq, leb, lookup, insert, insert_all, is_empty,
}
use terraform_operator.Api.Task.{TaskName}
use terraform_operator.Api.Spec.{
  StringMap, ScmAuthMethod, GitHttps, SecretRef, TaskOption, ResourceDownload, Setup, Module,
  ConfigMapSelector,
}
use terraform_operator.Api.Resource.{Terraform}
use terraform_operator.Cluster.Effects.{
  message, Result, ok, err, M, pure, fail, crash, ◌>>=◌, ◌>>◌, attempt,
}
use terraform_operator.Cluster.Client.{Client}
use terraform_operator.Controller.Options.{ParsedAddress, TaskOptions}
use terraform_operator.Controller.Addresses.{and_then, get_parsed_address}
use terraform_operator.Controller.Status.{wrapped}
use terraform_operator.Controller.Finalizers.{update_secret_finalizer}
use terraform_operator.Controller.GitAccess.{create_git_askpass, format_job_ssh_config}
use terraform_operator.Controller.Cleanup.{reap_plugins}
use terraform_operator.Controller.Run.{run}
use terraform_operator.Controller.Packages.{Packages}

abbrev pub is_new_generation : (reason : String) → Bool
is_new_generation reason = reason == "GENERATION_CHANGE" || reason == "TF_RESOURCE_DELETED"

abbrev pub is_first_install : (reason : String) → Bool
is_first_install reason = reason == "TF_RESOURCE_CREATED"

abbrev pub is_changed : (reason : String) → Bool
is_changed reason = is_new_generation reason || is_first_install reason

-- The scheme of each host that the resource has access to.
unfoldable pub scm_hosts : List ScmAuthMethod → StringMap → StringMap
scm_hosts [] hosts = hosts
scm_hosts (m ∷ methods) hosts =
    scm_hosts methods (elim m.git [ none ↦ hosts | some git ↦ insert m.host "git" hosts ])

abbrev pub with_file : (name text : String) → TaskOptions → TaskOptions
with_file name text r = record r {
  main_module_plugin_data = insert name text r.main_module_plugin_data;
}

module _ (p : Packages) where
  select_module : ConfigMapSelector → TaskOptions → Result TaskOptions
  select_module selector r =
      and_then (p.selector_json selector)
        λ text. ok (with_file ".__TFO__ConfigMapModule.json" text r)

  locate_module : StringMap → Module → TaskOptions → Result TaskOptions
  unfolding get_parsed_address
  locate_module hosts m r =
      if not (m.source == "")
      then and_then (get_parsed_address p.net p.getter m.source "" false hosts)
          (λ address. ok (record r { terraform_module_parsed = address }))
      else err (message "no terraform module detected")

  -- Where the main module comes from.
  unfoldable pub choose_module : StringMap → Module → TaskOptions → Result TaskOptions
  unfolding select_module locate_module
  choose_module hosts m r =
      if not (m.inline == "")
      then ok (with_file "inline-module.tf" m.inline r)
      else elim m.config_map_seclector_x [
        | some selector ↦ select_module selector r
        | none ↦ elim m.config_map_selector [
          | some selector ↦ select_module selector r
          | none ↦ locate_module hosts m r
        ]
      ]

  -- The scripts that the tasks run if they have none of their own.
  unfoldable pub add_default_scripts : StringMap → StringMap
  add_default_scripts files = insert "default-noop.sh" p.noop_script (
      insert "default-setup.sh" p.setup_script
        (insert "default-terraform.sh" p.terraform_script files))

abbrev pub inline_file : TaskName → String
inline_file task = String.◌++◌ "inline-" (String.◌++◌ task ".sh")

unfoldable pub add_inline : (script : String) → List TaskName → StringMap → StringMap
add_inline script [] files = files
add_inline script (affected ∷ tasks) files =
    add_inline script tasks
      (if affected == "*" then files else insert (inline_file affected) script files)

-- The inline scripts of all tasks.
unfoldable pub add_inline_scripts : List TaskOption → StringMap → StringMap
unfolding add_inline
add_inline_scripts [] files = files
add_inline_scripts (option ∷ options) files =
    add_inline_scripts options (
      if option.script.inline == ""
      then files
      else add_inline option.script.inline option.for files)

-- `strings.TrimSpace`, for ASCII texts.
abbrev is_space : Char → Bool
is_space c = nat_beq (code c) 32 || leb 9 (code c) && leb (code c) 13

trim_left : String → String
trim_left String.[] = String.[]
trim_left (String.◌∷◌ c s) = let rest = trim_left s in if is_space c then rest else String.◌∷◌ c s

trim_end : String → String
trim_end String.[] = String.[]
trim_end (String.◌∷◌ c s) =
    let rest = trim_end s in if is_empty rest && is_space c then String.[] else String.◌∷◌ c rest

unfoldable pub trim_space : String → String
unfolding trim_left trim_end
trim_space s = trim_end (trim_left s)

-- The loop over `spec.setup.resourceDownloads`.
unfoldable pub parse_downloads :
    Packages
    → (hosts : StringMap) → List ResourceDownload
    → List ParsedAddress
    → Result (List ParsedAddress)
unfolding trim_space get_parsed_address
parse_downloads p hosts [] items = ok items
parse_downloads p hosts (s ∷ downloads) items =
    and_then (get_parsed_address p.net p.getter (trim_space s.address) s.path s.use_as_var hosts)
      λ address. parse_downloads p hosts downloads (items ++ address ∷ [])

abbrev pub downloads_of : Option Setup → List ResourceDownload
downloads_of none = []
downloads_of (some setup) = setup.resource_downloads

abbrev pub lift : {W A : Type 0} → Result A → M W A
lift r w = (r, w)

-- The token's entry is called `token` where the reference does not say.
abbrev pub token_ref : SecretRef → SecretRef
token_ref ref = record ref { key = if ref.key == "" then "token" else ref.key }

module _ (c : Client) (p : Packages) where
  open c use {World}

  abbrev add_token : Option String → SecretRef → StringMap → M World StringMap
  add_token (some found) ref secrets = pure secrets
  add_token none ref secrets = create_git_askpass c p.askpass (token_ref ref) >>= λ script.
      pure (insert "gitAskpass" script secrets)

  abbrev add_https : Option GitHttps → StringMap → M World StringMap
  add_https none secrets = pure secrets
  add_https (some https) secrets =
      add_token (lookup "gitAskpass" secrets) https.token_secret_ref secrets

  -- The loop for the first HTTPS token; a method with no git section is a panic.
  unfoldable pub add_askpass : List ScmAuthMethod → StringMap → M World StringMap
  unfolding create_git_askpass
  add_askpass [] secrets = pure secrets
  add_askpass (m ∷ methods) secrets = elim m.git [
    | none ↦ crash
    | some git ↦ add_https git.https secrets >>= λ secrets'. add_askpass methods secrets'
  ]

  -- The options with the files of a new generation; `text` lists the downloads.
  unfoldable pub filled :
      Terraform → TaskOptions → (secrets keys : StringMap) → (text : String) → TaskOptions
  unfolding add_default_scripts add_inline_scripts
  filled tf r secrets keys text = record r {
    main_module_plugin_data = insert "backend_override.tf" tf.spec.backend (
        insert ".__TFO__ResourceDownloads.json" text (
          add_inline_scripts tf.spec.task_options
            (add_default_scripts p r.main_module_plugin_data)));
    secret_data = insert_all keys secrets;
  }

  -- The branch of a new generation or the first installation.
  unfoldable pub fill_in : (hosts : StringMap) → Terraform → TaskOptions → M World TaskOptions
  unfolding update_secret_finalizer reap_plugins add_askpass format_job_ssh_config parse_downloads
      filled
  fill_in hosts tf r = do
    attempt (update_secret_finalizer c p.finalizers tf) (λ e. pure tt) (λ _. pure tt)
    attempt (reap_plugins p.md5 c tf) (λ e. pure tt) (λ _. pure tt)
    secrets ← add_askpass tf.spec.scm_auth_methods r.secret_data
    keys ←
        attempt (format_job_ssh_config c tf) (λ e. fail (wrapped "error setting up sshconfig: " e))
          (λ keys. pure keys)
    items ← lift (parse_downloads p hosts (downloads_of tf.spec.setup) [])
    text ← lift (p.addresses_json items)
    pure (filled tf r secrets keys text)

  unfoldable pub setup_and_run : Terraform → TaskOptions → M World (Unit {0})
  unfolding scm_hosts choose_module fill_in run
  setup_and_run tf r =
      let reason = tf.status.stage.reason in
      let hosts = scm_hosts tf.spec.scm_auth_methods [] in
      do
        located ← lift (choose_module p hosts tf.spec.terraform_module r)
        filled ← if is_changed reason then fill_in hosts tf located else pure located
        run c p.global_env tf filled (is_new_generation reason) (is_first_install reason)
