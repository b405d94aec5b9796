-- ===== src/Controller/Setup/Ready.antt =====
-- What setupAndRun of pkg/controllers/terraform_controller.go leaves for the stages that follow.
use terraform_operator.Prelude.{
  ℕ, String, Bool, true, false, List, [], ◌≡◌, refl, ap, ◌∙◌, subst, arith, Option, none, some, inl,
  if◌then◌else◌, ◌||◌, ◌==◌, not,
}
use terraform_operator.Api.Task.{TaskName}
use terraform_operator.Api.Spec.{StringMap, Module, ConfigMapSelector, EnvFromSource}
use terraform_operator.Api.Resource.{Terraform, TerraformStatus}
use terraform_operator.Cluster.Effects.{Result, ok, err, panic, pure, go_on-eq-ok}
use terraform_operator.Cluster.Client.{Client, IsQuiet}
use terraform_operator.Controller.Options.{TaskOptions, Inherited, new_task_options}
use terraform_operator.Controller.Addresses.{and_then, get_parsed_address}
use terraform_operator.Controller.Run.{check_all, run}
use terraform_operator.Controller.Run.Ready.{check_all-run}
use terraform_operator.Controller.Packages.{Packages}
use terraform_operator.Controller.Setup.{
  with_file, lift, select_module, locate_module, choose_module, scm_hosts, filled, fill_in,
  setup_and_run, is_changed, is_new_generation, is_first_install,
}
use terraform_operator.Controller.Setup.Scripts.{fill_in-Post}

-- The names under which a stage looks for what it needs.
pub record SameNames (r s : TaskOptions) : Type 0 where
  pub namespace : r.namespace ≡ s.namespace
  pub prefixed_name : r.prefixed_name ≡ s.prefixed_name
  pub versioned_name : r.versioned_name ≡ s.versioned_name
  pub service_account : r.service_account ≡ s.service_account

SameNames-trans : {r s t : TaskOptions} → SameNames r s → SameNames s t → SameNames r t
SameNames-trans m n = record {
  namespace = m.namespace ∙ n.namespace;
  prefixed_name = m.prefixed_name ∙ n.prefixed_name;
  versioned_name = m.versioned_name ∙ n.versioned_name;
  service_account = m.service_account ∙ n.service_account;
}

-- The tasks of one generation share their names.
new_task_options-SameNames :
    (md5 : String → String) (tf : Terraform) (task other : TaskName) (generation later : ℕ)
    (env env' : List EnvFromSource) (inherited inherited' : Inherited) (approval approval' : String)
    → SameNames
        (new_task_options md5 tf task generation env inherited approval).1
        (new_task_options md5 tf other later env' inherited' approval').1
unfolding new_task_options
new_task_options-SameNames md5 tf task other generation later env env' inherited inherited' approval
      approval' =
    record { namespace = refl; prefixed_name = refl; versioned_name = refl; service_account = refl }

new_task_options-keeps :
    (md5 : String → String) (tf : Terraform) (task : TaskName) (generation : ℕ)
    (env : List EnvFromSource) (inherited : Inherited) (approval : String)
    → let (tf', _) = new_task_options md5 tf task generation env inherited approval in
      (tf'.status ≡ tf.status) × (tf'.spec.service_account ≡ tf.spec.service_account)
unfolding new_task_options
new_task_options-keeps md5 tf task generation env inherited approval = (refl, refl)

check_all-SameNames :
    (c : Client) (r s : TaskOptions) (w : c.World)
    → SameNames r s
    → check_all c r w ≡ check_all c s w
unfolding check_all
check_all-SameNames c r s w n i =
    check_all c
      (record r {
        namespace = n.namespace i;
        prefixed_name = n.prefixed_name i;
        versioned_name = n.versioned_name i;
        service_account = n.service_account i;
      })
      w

-- A result that is a success has the names.
abbrev Keeps : TaskOptions → Result TaskOptions → Type 0
Keeps r (ok s) = SameNames r s
Keeps r _ = Unit {0}

Keeps-and_then :
    {A : Type 0} (r : TaskOptions) (x : Result A) (f : A → TaskOptions)
    → ((a : A) → SameNames r (f a))
    → Keeps r (and_then x (λ a. ok (f a)))
Keeps-and_then r (ok a) f h = h a
Keeps-and_then r (err e) f h = tt
Keeps-and_then r panic f h = tt

Keeps-if :
    (r : TaskOptions) (b : Bool) (x y : Result TaskOptions)
    → Keeps r x
    → Keeps r y
    → Keeps r (if b then x else y)
Keeps-if r true x y kx ky = kx
Keeps-if r false x y kx ky = ky

module _ (p : Packages) (hosts : StringMap) (m : Module) (r : TaskOptions) where
  select_module-Keeps : (selector : ConfigMapSelector) → Keeps r (select_module p selector r)
  unfolding select_module
  select_module-Keeps selector =
      Keeps-and_then r (p.selector_json selector)
        (λ text. with_file ".__TFO__ConfigMapModule.json" text r)
        (λ text. record {
          namespace = refl;
          prefixed_name = refl;
          versioned_name = refl;
          service_account = refl;
        })

  locate_module-Keeps : Keeps r (locate_module p hosts m r)
  unfolding locate_module
  locate_module-Keeps =
      Keeps-if r (not (m.source == "")) _ _
        (Keeps-and_then r (get_parsed_address p.net p.getter m.source "" false hosts)
          (λ address. record r { terraform_module_parsed = address })
          (λ address. record {
            namespace = refl;
            prefixed_name = refl;
            versioned_name = refl;
            service_account = refl;
          }))
        tt

  choose_module-Keeps : Keeps r (choose_module p hosts m r)
  unfolding choose_module
  choose_module-Keeps =
      Keeps-if r (not (m.inline == "")) _ _
        (record {
          namespace = refl;
          prefixed_name = refl;
          versioned_name = refl;
          service_account = refl;
        })
        (selected m.config_map_seclector_x m.config_map_selector)
    where
      located :
          (o : Option ConfigMapSelector)
          → Keeps r (elim o [
            | some selector ↦ select_module p selector r
            | none ↦ locate_module p hosts m r
          ])
      located none = locate_module-Keeps
      located (some selector) = select_module-Keeps selector

      selected :
          (o o' : Option ConfigMapSelector)
          → Keeps r (elim o [
            | some selector ↦ select_module p selector r
            | none ↦ elim o' [
              | some selector ↦ select_module p selector r
              | none ↦ locate_module p hosts m r
            ]
          ])
      selected none o' = located o'
      selected (some selector) o' = select_module-Keeps selector

module _ (c : Client) (p : Packages) where
  filled-SameNames :
      (tf : Terraform) (r : TaskOptions) (secrets keys : StringMap) (text : String)
      → SameNames r (filled c p tf r secrets keys text)
  unfolding filled
  filled-SameNames tf r secrets keys text = record {
    namespace = refl;
    prefixed_name = refl;
    versioned_name = refl;
    service_account = refl;
  }

  fill_in-SameNames :
      (hosts : StringMap) (tf : Terraform) (r r' : TaskOptions) (w w' : c.World)
      → fill_in c p hosts tf r w ≡ (ok r', w')
      → SameNames r r'
  fill_in-SameNames hosts tf r r' w w' e =
      let (secrets, keys, text, same) = (fill_in-Post c p hosts tf r).at w e in
      subst (SameNames r) same (filled-SameNames tf r secrets keys text)

  -- What `setupAndRun` did if it succeeded on a stage that changes the generation.
  setup_and_run-run :
      (tf : Terraform) (r : TaskOptions) (w w' : c.World)
      → is_changed tf.status.stage.reason ≡ true
      → setup_and_run c p tf r w ≡ (ok tt, w')
      → (r' : TaskOptions) × (v : c.World) × SameNames r r'
        × (run c p.global_env tf r'
              (is_new_generation tf.status.stage.reason)
              (is_first_install tf.status.stage.reason)
              v
            ≡ (ok tt, w'))
  unfolding setup_and_run
  setup_and_run-run tf r w w' b e =
      let reason = tf.status.stage.reason in
      let hosts = scm_hosts tf.spec.scm_auth_methods [] in
      let (located, w1, e1, f1) =
        go_on-eq-ok (lift (choose_module p hosts tf.spec.terraform_module r) w) _ e in
      let start : Keeps r (ok located) =
        subst (Keeps r) (ap (λ x. x.0) e1)
          (choose_module-Keeps p hosts tf.spec.terraform_module r) in
      let (r', w2, e2, f2) =
        go_on-eq-ok ((if is_changed reason then fill_in c p hosts tf located else pure located) w1)
          _ f1 in
      let full =
        subst (λ t. (if t then fill_in c p hosts tf located else pure located) w1 ≡ (ok r', w2)) b
          e2 in
      (r', w2, SameNames-trans start (fill_in-SameNames hosts tf located r' w1 w2 full), f2)

  changed_branch : (a b : Bool) → (a || b) ≡ true → (b || a) ≡ true
  changed_branch a b h = ground arith

  -- If nobody else writes to the cluster, then a stage that changes the generation of a resource
  -- leaves nothing to miss for the tasks that follow: if `setupAndRun` succeeds for one task, the
  -- checks that `run` makes for any other task of the resource at that generation succeed, and change
  -- nothing. The resource names no service account of its own.
  pub setup_and_run-check_all :
      (q : IsQuiet c) (tf : Terraform) (task other : TaskName) (generation later : ℕ)
      (env env' : List EnvFromSource) (inherited inherited' : Inherited) (w w' : c.World)
      → is_changed tf.status.stage.reason ≡ true
      → tf.spec.service_account ≡ ""
      → setup_and_run c p
          (new_task_options p.md5 tf task generation env inherited p.require_approval_image).0
          (new_task_options p.md5 tf task generation env inherited p.require_approval_image).1
          w
        ≡ (ok tt, w')
      → check_all c
          (new_task_options p.md5 tf other later env' inherited' p.require_approval_image).1
          w'
        ≡ (ok tt, w')
  setup_and_run-check_all q tf task other generation later env env' inherited inherited' w w' b a
        e =
      let approval = p.require_approval_image in
      let tf' = (new_task_options p.md5 tf task generation env inherited approval).0 in
      let r = (new_task_options p.md5 tf task generation env inherited approval).1 in
      let (status, account) =
        new_task_options-keeps p.md5 tf task generation env inherited approval in
      let b' = ap (λ (s : TerraformStatus). is_changed s.stage.reason) status ∙ b in
      let (r', v, same, ran) = setup_and_run-run tf' r w w' b' e in
      let branch =
        changed_branch (is_new_generation tf'.status.stage.reason)
          (is_first_install tf'.status.stage.reason) b' in
      check_all-SameNames c _ r' w' (
        SameNames-trans
          (new_task_options-SameNames p.md5 tf other task later generation env' env inherited'
            inherited approval approval)
          same)
      ∙ check_all-run c q p.global_env tf' r' (is_new_generation tf'.status.stage.reason)
          (is_first_install tf'.status.stage.reason) v w' branch (inl (account ∙ a)) ran
