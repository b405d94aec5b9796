-- ===== src/Controller/Setup/Scripts.antt =====
-- The scripts that setupAndRun of pkg/controllers/terraform_controller.go puts into the config map,
-- and those that newTaskOptions tells the tasks to run.
use terraform_operator.Prelude.{
  ℕ, String, true, false, List, [], ◌∷◌, ◌==◌, if◌then◌else◌, some, ◌||◌, ◌≡◌, ◌≢◌, refl, ◌∙◌,
  subst, sym, arith, inl, inr, ◌⊎◌, text_cases, eq_refl, lookup, insert, lookup-insert,
}
use terraform_operator.Api.Task.{TaskName, list_contains_task}
use terraform_operator.Api.Spec.{StringMap, TaskOption, Images, EnvFromSource}
use terraform_operator.Api.Resource.{Terraform}
use terraform_operator.Cluster.Effects.{ok, fail, pure, attempt}
use terraform_operator.Cluster.Client.{Client}
use terraform_operator.Cluster.Posts.{Post, Post-pure, Post-bind}
use terraform_operator.Controller.Status.{wrapped}
use terraform_operator.Controller.Finalizers.{update_secret_finalizer}
use terraform_operator.Controller.GitAccess.{format_job_ssh_config}
use terraform_operator.Controller.Cleanup.{reap_plugins}
use terraform_operator.Controller.Options.{
  TaskOptions, Collected, Inherited, nothing_collected, fill_images, collect, collect_script,
  collect_shared, choose_execution, new_task_options,
}
use terraform_operator.Controller.Packages.{Packages}
use terraform_operator.Controller.Setup.{
  fill_in, filled, add_default_scripts, inline_file, add_inline, add_inline_scripts, add_askpass,
  parse_downloads, downloads_of, lift,
}

-- The file is in the map.
abbrev pub IsPresent : String → StringMap → Type 0
IsPresent key entries = (text : String) × (lookup key entries ≡ some text)

pub insert-IsPresent :
    (key other text : String) (entries : StringMap)
    → IsPresent key entries
    → IsPresent key (insert other text entries)
insert-IsPresent key other text entries (v, h) = elim (text_cases other key) [
  | inl (e, t) ↦ (text, ground (arith, lookup-insert other key text entries))
  | inr (n, t) ↦ (v, ground (arith, lookup-insert other key text entries))
]

pub insert-IsPresent_self :
    (key text : String) (entries : StringMap) → IsPresent key (insert key text entries)
insert-IsPresent_self key text entries =
    (text, ground (arith, lookup-insert key key text entries, eq_refl key))

add_inline-IsPresent :
    (script : String) (tasks : List TaskName) (key : String) (files : StringMap)
    → IsPresent key files
    → IsPresent key (add_inline script tasks files)
unfolding add_inline
add_inline-IsPresent script [] key files h = h
add_inline-IsPresent script (t ∷ tasks) key files h = elim (text_cases t "*") [
  | inl (e, b) ↦ rw b (add_inline-IsPresent script tasks key files h)
  | inr (n, b) ↦ rw b (
      add_inline-IsPresent script tasks key (insert (inline_file t) script files)
        (insert-IsPresent key (inline_file t) script files h))
]

add_inline-member :
    (script : String) (tasks : List TaskName) (task : TaskName) (files : StringMap)
    → task ≢ "*"
    → list_contains_task tasks task ≡ true
    → IsPresent (inline_file task) (add_inline script tasks files)
unfolding add_inline list_contains_task
add_inline-member script [] task files n h = absurd (ground arith)
add_inline-member script (t ∷ tasks) task files n h = elim (text_cases t task) [
  | inl (e, b) ↦ elim (text_cases t "*") [
    | inl (star, _) ↦ absurd (n (sym e ∙ star))
    | inr (_, other) ↦ rw other (
        add_inline-IsPresent script tasks (inline_file task) (insert (inline_file t) script files)
          (rw e (insert-IsPresent_self (inline_file task) script files)))
  ]
  | inr (k, b) ↦ add_inline-member script tasks task _ n (rw b at h)
]

add_inline_scripts-IsPresent :
    (options : List TaskOption) (key : String) (files : StringMap)
    → IsPresent key files
    → IsPresent key (add_inline_scripts options files)
unfolding add_inline_scripts
add_inline_scripts-IsPresent [] key files h = h
add_inline_scripts-IsPresent (o ∷ options) key files h = elim (text_cases o.script.inline "") [
  | inl (e, b) ↦ rw b (add_inline_scripts-IsPresent options key files h)
  | inr (n, b) ↦ rw b (
      add_inline_scripts-IsPresent options key (add_inline o.script.inline o.for files)
        (add_inline-IsPresent o.script.inline o.for key files h))
]

-- One round of the loop.
abbrev collect_option : TaskName → TaskOption → Collected → Collected
collect_option task o c =
    let here = list_contains_task o.for task in
    let shared = if here || list_contains_task o.for "*" then collect_shared o c else c in
    if here then collect_script task o shared else shared

collect_option-file :
    (task : TaskName) (o : TaskOption) (c : Collected)
    → ((collect_option task o c).inline_task_execution_file ≡ c.inline_task_execution_file)
      ⊎ (((collect_option task o c).inline_task_execution_file ≡ inline_file task)
          × (list_contains_task o.for task ≡ true)
          × ((o.script.inline == "") ≡ false))
unfolding collect_script collect_shared
collect_option-file task o c = ground arith

-- The script file of a task is what it was before the loop, or an inline script that the loop over
-- all options puts into the map.
collect-IsPresent :
    (task : TaskName) (options : List TaskOption) (c : Collected) (files : StringMap)
    → task ≢ "*"
    → ((collect task options c).inline_task_execution_file ≡ c.inline_task_execution_file)
      ⊎ (((collect task options c).inline_task_execution_file ≡ inline_file task)
          × IsPresent (inline_file task) (add_inline_scripts options files))
unfolding collect add_inline_scripts
collect-IsPresent task [] c files n = inl refl
collect-IsPresent task (o ∷ options) c files n =
    let c' = collect_option task o c in
    let files' = if o.script.inline == "" then files else add_inline o.script.inline o.for files in
    elim (collect-IsPresent task options c' files' n) [
      | inr found ↦ inr found
      | inl same ↦ elim (collect_option-file task o c) [
        | inl old ↦ inl (same ∙ old)
        | inr (new, here, script) ↦ inr (
          same ∙ new,
          rw script (
              add_inline_scripts-IsPresent options (inline_file task)
                (add_inline o.script.inline o.for files)
                (add_inline-member o.script.inline o.for task files n here)),
        )
      ]
    ]

choose_execution-file :
    (images : Images) (task : TaskName) (c : Collected)
    → let file = (choose_execution images task c).inline_task_execution_file in
      (file ≡ c.inline_task_execution_file)
      ⊎ (file ≡ "default-terraform.sh")
      ⊎ (file ≡ "default-noop.sh")
      ⊎ (file ≡ "default-setup.sh")
unfolding choose_execution
choose_execution-file images task c = ground arith

defaults-IsPresent :
    (p : Packages) (files : StringMap)
    → IsPresent "default-terraform.sh" (add_default_scripts p files)
      × IsPresent "default-noop.sh" (add_default_scripts p files)
      × IsPresent "default-setup.sh" (add_default_scripts p files)
unfolding add_default_scripts
defaults-IsPresent p files =
    let files1 = insert "default-terraform.sh" p.terraform_script files in
    let files2 = insert "default-setup.sh" p.setup_script files1 in
    (
      insert-IsPresent "default-terraform.sh" "default-noop.sh" p.noop_script files2 (
          insert-IsPresent "default-terraform.sh" "default-setup.sh" p.setup_script files1
            (insert-IsPresent_self "default-terraform.sh" p.terraform_script files)),
      insert-IsPresent_self "default-noop.sh" p.noop_script files2,
      insert-IsPresent "default-setup.sh" "default-noop.sh" p.noop_script files2
          (insert-IsPresent_self "default-setup.sh" p.setup_script files1),
    )

-- The file of a task among those of the map, before the downloads and the backend are added.
execution-IsPresent :
    (p : Packages) (given : StringMap) (options : List TaskOption) (images : Images)
    (task : TaskName) (env : List EnvFromSource)
    → task ≢ "*"
    → let file =
        (choose_execution images task
          (collect task options (nothing_collected env))).inline_task_execution_file in
      (file ≡ "") ⊎ IsPresent file (add_inline_scripts options (add_default_scripts p given))
execution-IsPresent p given options images task env n =
    let files = add_default_scripts p given in
    let target = add_inline_scripts options files in
    let (terraform, noop, setup) = defaults-IsPresent p given in
    let keep = λ (key : String) (h : IsPresent key files).
      add_inline_scripts-IsPresent options key files h in
    let c = collect task options (nothing_collected env) in
    elim (choose_execution-file images task c) [
      | inl same ↦ elim (collect-IsPresent task options (nothing_collected env) files n) [
        | inl e ↦ inl (same ∙ e)
        | inr (e, h) ↦ inr (subst (λ k. IsPresent k target) (sym (same ∙ e)) h)
      ]
      | inr (inl e) ↦ inr (subst (λ k. IsPresent k target) (sym e) (keep _ terraform))
      | inr (inr (inl e)) ↦ inr (subst (λ k. IsPresent k target) (sym e) (keep _ noop))
      | inr (inr (inr e)) ↦ inr (subst (λ k. IsPresent k target) (sym e) (keep _ setup))
    ]

module _ (c : Client) (p : Packages) where
  -- Whatever the options are filled in with.
  abbrev pub Filled : Terraform → TaskOptions → TaskOptions → Type 0
  Filled tf r r' =
      (secrets keys : StringMap) × (text : String) × (filled c p tf r secrets keys text ≡ r')

  pub fill_in-Post :
      (hosts : StringMap) (tf : Terraform) (r : TaskOptions)
      → Post (Filled tf r) (fill_in c p hosts tf r)
  unfolding fill_in
  fill_in-Post hosts tf r =
      Post-bind (attempt (update_secret_finalizer c p.finalizers tf) (λ e. pure tt) (λ _. pure tt))
        _
        λ _.
          Post-bind (attempt (reap_plugins p.md5 c tf) (λ e. pure (tt {0})) (λ _. pure (tt {0}))) _
            λ _. Post-bind (add_askpass c p tf.spec.scm_auth_methods r.secret_data) _ λ secrets.
              Post-bind
                (attempt (format_job_ssh_config c tf)
                  (λ e. fail (wrapped "error setting up sshconfig: " e)) (λ keys. pure keys))
                _
                λ keys.
                  Post-bind (lift (parse_downloads p hosts (downloads_of tf.spec.setup) [])) _
                    λ items. Post-bind (lift (p.addresses_json items)) _ λ text.
                      Post-pure (filled c p tf r secrets keys text) (secrets, keys, text, refl)

  filled-IsPresent :
      (tf : Terraform) (r : TaskOptions) (secrets keys : StringMap) (text key : String)
      → IsPresent key (
          add_inline_scripts tf.spec.task_options (add_default_scripts p r.main_module_plugin_data))
      → IsPresent key (filled c p tf r secrets keys text).main_module_plugin_data
  unfolding filled
  filled-IsPresent tf r secrets keys text key h =
      insert-IsPresent key "backend_override.tf" tf.spec.backend _
        (insert-IsPresent key ".__TFO__ResourceDownloads.json" text _ h)

  -- The file that a task is told to run is in the config map of its generation: if a changed stage
  -- was filled in, then for each task (`*` is not one) the options name no file, which leaves the
  -- task to another source or to none, or a file of the map that was filled in.
  pub fill_in-scripts :
      (hosts : StringMap) (tf : Terraform) (r r' : TaskOptions) (w w' : c.World) (task : TaskName)
      (generation : ℕ) (env : List EnvFromSource) (inherited : Inherited) (approval : String)
      → fill_in c p hosts tf r w ≡ (ok r', w')
      → task ≢ "*"
      → let (_, options) = new_task_options p.md5 tf task generation env inherited approval in
        let file = options.inline_task_execution_file in
        (file ≡ "") ⊎ IsPresent file r'.main_module_plugin_data
  unfolding new_task_options
  fill_in-scripts hosts tf r r' w w' task generation env inherited approval success n =
      let (secrets, keys, text, e) = (fill_in-Post hosts tf r).at w success in
      let files = add_default_scripts p r.main_module_plugin_data in
      let up = λ (key : String) (h : IsPresent key (add_inline_scripts tf.spec.task_options files)).
        subst (λ (o : TaskOptions). IsPresent key o.main_module_plugin_data) e
          (filled-IsPresent tf r secrets keys text key h) in
      elim (execution-IsPresent p r.main_module_plugin_data tf.spec.task_options
        (fill_images tf.spec.images
          (if tf.spec.terraform_version == "" then "latest" else tf.spec.terraform_version))
        task env n) [ inl none_named ↦ inl none_named | inr found ↦ inr (up _ found) ]
