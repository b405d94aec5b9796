-- ===== src/Controller/Run/Ready.antt =====
-- The two branches of `run` fit together: what the first one creates is what the second looks for.
use mathlib.Core.Bool.{false≢true}
use terraform_operator.Prelude.{
  ◌∷◌, String, Bool, true, false, [], ◌≡◌, ◌≢◌, refl, ap, ◌∙◌, subst, Option, none, some, arith,
  eq_iff, inl, inr, if◌then◌else◌, ◌||◌, ◌⊎◌, ◌==◌,
}
use terraform_operator.Api.Resource.{Terraform}
use terraform_operator.Cluster.{
  Kind, config_map, secret, service_account, role, role_binding, claim, pod, Object,
}
use terraform_operator.Cluster.Effects.{
  ApiError, Error, ok, M, pure, go_on, ◌>>=◌, ◌>>◌, go_on-eq-ok, world_of, api_result-world,
  already_exists, not_found,
}
use terraform_operator.Cluster.Client.{Client, IsQuiet}
use terraform_operator.Controller.Options.{TaskOptions}
use terraform_operator.Controller.PodTemplate.{Generated, generate_pod, generated, invalid}
use terraform_operator.Controller.Objects.{
  generate_config_map, generate_service_account, generate_role, generate_role_binding,
}
use terraform_operator.Controller.Ensure.{
  create_generated, check_exists, create_pvc, create_config_map, create_secret,
  create_service_account, create_role, create_role_binding, create_pod,
}
use terraform_operator.Controller.Ensure.Laws.{
  Has, check_exists-Has, create_object-keeps, recreate-Makes, create_pvc-Makes, create_secret-Makes,
}
use terraform_operator.Controller.Run.{
  GlobalEnv, env_meta, is_nonempty, absent, required, create_or_update, update_existing,
  create_env_from_sources, create_all, check_all, run,
}

module _ (c : Client) (q : IsQuiet c) where
  open c use {World}

  -- Nothing is lost.
  abbrev Keeps : World → World → Type 0
  Keeps w w' = (k : Kind) (ns n : String) → Has c q k ns n w → Has c q k ns n w'

  create_or_update-Keeps :
      (kind : Kind) (o : Object kind) (w w' : World)
      → create_or_update c kind o w ≡ (ok tt, w')
      → Keeps w w'
  unfolding create_or_update
  create_or_update-Keeps kind o w w' e k ns n h =
      updated (c.create kind o w) e (q.create_keeps kind o w k ns n h)
    where
      updated :
          (x : Option ApiError × World)
          → update_existing c kind o x ≡ (ok tt, w')
          → Has c q k ns n x.1
          → Has c q k ns n w'
      updated (none, v) f p = subst (Has c q k ns n) (world_of f) p
      updated (some already_exists, v) f p =
          subst (Has c q k ns n) (api_result-world (c.update kind o v) f)
            (q.update_keeps kind o v k ns n p)
      updated (some not_found, v) f p = absurd (ground arith)
      updated (some (ApiError.other t), v) f p = absurd (ground arith)

  conditional-Keeps :
      (b : Bool) (kind : Kind) (o : Object kind) (w w' : World)
      → (if b then create_or_update c kind o else pure tt) w ≡ (ok tt, w')
      → Keeps w w'
  conditional-Keeps true kind o w w' e k ns n h = create_or_update-Keeps kind o w w' e k ns n h
  conditional-Keeps false kind o w w' e k ns n h = subst (Has c q k ns n) (world_of e) h

  create_env_from_sources-Keeps :
      (g : GlobalEnv) (tf : Terraform) (w w' : World)
      → create_env_from_sources c g tf w ≡ (ok tt, w')
      → Keeps w w'
  unfolding create_env_from_sources
  create_env_from_sources-Keeps g tf w w' e k ns n h =
      let (_, v, first, second) =
        go_on-eq-ok
          ((if is_nonempty g.from_configmap_data
              then create_or_update c config_map
                  (record { meta = env_meta g tf; data_map = g.from_configmap_data })
              else pure tt)
            w)
          _ e in
      conditional-Keeps (is_nonempty g.from_secret_data) secret
        (record { meta = env_meta g tf; data_map = g.from_secret_data }) v w' second k ns n
        (conditional-Keeps (is_nonempty g.from_configmap_data) config_map
          (record { meta = env_meta g tf; data_map = g.from_configmap_data }) w v first k ns n h)

  -- All that a stage looks for.
  pub record IsReady (r : TaskOptions) (w : World) : Type 0 where
    pub volume : Has c q claim r.namespace r.prefixed_name w
    pub scripts : Has c q config_map r.namespace r.versioned_name w
    pub keys : Has c q secret r.namespace r.versioned_name w
    pub binding : Has c q role_binding r.namespace r.versioned_name w
    pub rights : Has c q role r.namespace r.versioned_name w
    pub account : Has c q service_account r.namespace r.service_account w

  checked :
      (kind : Kind) (ns n : String) (w : World) (e : Error) (k : M World (Unit {0}))
      → Has c q kind ns n w
      → (check_exists c kind ns n >>= λ found. required e found >> k) w ≡ k w
  checked kind ns n w e k h =
      let (o, f) = check_exists-Has c q kind ns n w h in
      ap (λ x. go_on x (λ found. required e found >> k)) f

  check_all-IsReady : (r : TaskOptions) (w : World) → IsReady r w → check_all c r w ≡ (ok tt, w)
  unfolding check_all
  check_all-IsReady r w h =
      checked claim r.namespace r.prefixed_name w _ _ h.volume
      ∙ checked config_map r.namespace r.versioned_name w _ _ h.scripts
      ∙ checked secret r.namespace r.versioned_name w _ _ h.keys
      ∙ checked role_binding r.namespace r.versioned_name w _ _ h.binding
      ∙ checked role r.namespace r.versioned_name w _ _ h.rights
      ∙ ap (λ x. go_on x (required (absent "ServiceAccount" r.namespace r.service_account)))
          (check_exists-Has c q service_account r.namespace r.service_account w h.account).1

  -- The service account is created, or was there before.
  account_step :
      (b : Bool) (r : TaskOptions) (w w' : World)
      → (b ≡ true) ⊎ Has c q service_account r.namespace r.service_account w
      → (if b then create_service_account c r else pure tt) w ≡ (ok tt, w')
      → Has c q service_account r.namespace r.service_account w'
        × ((k : Kind) (ns n : String) → k ≢ service_account → Has c q k ns n w → Has c q k ns n w')
  unfolding create_service_account generate_service_account
  account_step true r w w' a e =
      let m = recreate-Makes c q service_account (generate_service_account r) w w' e in
      (m.made, m.keeps)
  account_step false r w w' (inl p) e = absurd (false≢true p)
  account_step false r w w' (inr h) e = (
    subst (Has c q service_account r.namespace r.service_account) (world_of e) h,
    λ k ns n _ h. subst (Has c q k ns n) (world_of e) h,
  )

  create_all-IsReady :
      (g : GlobalEnv) (tf : Terraform) (r : TaskOptions) (w w' : World)
      → (tf.spec.service_account ≡ "") ⊎ Has c q service_account r.namespace r.service_account w
      → create_all c g tf r w ≡ (ok tt, w')
      → IsReady r w'
  unfolding create_all create_config_map create_role create_role_binding generate_config_map
      generate_role generate_role_binding
  create_all-IsReady g tf r w w' a e =
      let (_, w1, e1, f1) = go_on-eq-ok (create_env_from_sources c g tf w) _ e in
      let (_, w2, e2, f2) = go_on-eq-ok (create_pvc c tf r w1) _ f1 in
      let (_, w3, e3, f3) =
        go_on-eq-ok (create_secret c r.versioned_name r.namespace r.secret_data true [] r w2) _
          f2 in
      let (_, w4, e4, f4) = go_on-eq-ok (create_config_map c r w3) _ f3 in
      let (_, w5, e5, f5) = go_on-eq-ok (create_role_binding c r w4) _ f4 in
      let (_, w6, e6, f6) = go_on-eq-ok (create_role c r w5) _ f5 in
      let (_, w7, e7, f7) =
        go_on-eq-ok
          ((if tf.spec.service_account == "" then create_service_account c r else pure tt) w6) _
          f6 in
      let m2 = create_pvc-Makes c q tf r w1 w2 e2 in
      let m3 =
        (create_secret-Makes c q r.versioned_name r.namespace r.secret_data true [] r w2 w3 e3).0 in
      let m4 = recreate-Makes c q config_map (generate_config_map r) w3 w4 e4 in
      let m5 = recreate-Makes c q role_binding (generate_role_binding r) w4 w5 e5 in
      let m6 = recreate-Makes c q role (generate_role r) w5 w6 e6 in
      let up = λ (ns n : String) (h : Has c q service_account ns n w).
        m6.keeps service_account ns n (λ p. cc)
          (m5.keeps service_account ns n (λ p. cc)
            (m4.keeps service_account ns n (λ p. cc)
              (m3.keeps service_account ns n (λ p. cc)
                (m2.1 service_account ns n
                  (create_env_from_sources-Keeps g tf w w1 e1 service_account ns n h))))) in
      let given : ((tf.spec.service_account == "") ≡ true)
          ⊎ Has c q service_account r.namespace r.service_account w6 =
        elim a [
          | inl p ↦ inl ((eq_iff tf.spec.service_account "").1 p)
          | inr h ↦ inr (up r.namespace r.service_account h)
        ] in
      let m7 = account_step (tf.spec.service_account == "") r w6 w7 given e7 in
      let m8 =
        create_secret-Makes c q r.outputs_secret_name r.namespace [] false
          (if r.strip_generation_label_on_outputs_secret
            then "terraforms.tf.galleybytes.com/generation" ∷ []
            else [])
          r w7 w' f7 in
      -- From the role on, a kind that is neither an account nor a secret stays.
      let last =
        λ (k : Kind) (a : k ≢ service_account) (b : k ≢ secret) (ns n : String)
            (h : Has c q k ns n w6).
          m8.0.keeps k ns n b (m7.1 k ns n a h) in
      record {
        volume =
            last claim (λ p. cc) (λ p. cc) r.namespace r.prefixed_name
              (m6.keeps claim r.namespace r.prefixed_name (λ p. cc)
                (m5.keeps claim r.namespace r.prefixed_name (λ p. cc)
                  (m4.keeps claim r.namespace r.prefixed_name (λ p. cc)
                    (m3.keeps claim r.namespace r.prefixed_name (λ p. cc) m2.0))));
        scripts =
            last config_map (λ p. cc) (λ p. cc) r.namespace r.versioned_name
              (m6.keeps config_map r.namespace r.versioned_name (λ p. cc)
                (m5.keeps config_map r.namespace r.versioned_name (λ p. cc) m4.made));
        keys = m8.1 refl r.namespace r.versioned_name (
            m7.1 secret r.namespace r.versioned_name (λ p. cc)
              (m6.keeps secret r.namespace r.versioned_name (λ p. cc)
                (m5.keeps secret r.namespace r.versioned_name (λ p. cc)
                  (m4.keeps secret r.namespace r.versioned_name (λ p. cc) m3.made))));
        binding =
            last role_binding (λ p. cc) (λ p. cc) r.namespace r.versioned_name
              (m6.keeps role_binding r.namespace r.versioned_name (λ p. cc) m5.made);
        rights = last role (λ p. cc) (λ p. cc) r.namespace r.versioned_name m6.made;
        account = m8.0.keeps service_account r.namespace r.service_account (λ p. cc) m7.0;
      }

  create_pod-Keeps : (r : TaskOptions) (w w' : World) → create_pod c r w ≡ (ok tt, w') → Keeps w w'
  unfolding create_pod
  create_pod-Keeps r w w' e = started (generate_pod r) e
    where
      started : (p : Generated) → create_generated c p w ≡ (ok tt, w') → Keeps w w'
      started (generated o) f k ns n h = create_object-keeps c q pod o w w' (ok tt) f k ns n h
      started (invalid t) f k ns n h = absurd (ground arith)

  -- If nobody else writes to the cluster, then after a run that set up a generation nothing is
  -- missing that a later stage looks for: the checks of the other branch succeed, and change
  -- nothing. A service account that the resource names must exist.
  pub check_all-run :
      (g : GlobalEnv) (tf : Terraform) (r : TaskOptions) (is_new_generation is_first_install : Bool)
      (w w' : World)
      → (is_first_install || is_new_generation) ≡ true
      → (tf.spec.service_account ≡ "") ⊎ Has c q service_account r.namespace r.service_account w
      → run c g tf r is_new_generation is_first_install w ≡ (ok tt, w')
      → check_all c r w' ≡ (ok tt, w')
  unfolding run
  check_all-run g tf r is_new_generation is_first_install w w' b a e =
      let e' : (create_all c g tf r >> create_pod c r) w ≡ (ok tt, w') =
        subst
          (λ t.
            ((if t then create_all c g tf r else check_all c r) >> create_pod c r) w ≡ (ok tt, w'))
          b e in
      let (_, v, created, started) = go_on-eq-ok (create_all c g tf r w) (λ _. create_pod c r) e' in
      let ready = create_all-IsReady g tf r w v a created in
      let keep = create_pod-Keeps r v w' started in
      check_all-IsReady r w' (record {
        volume = keep claim r.namespace r.prefixed_name ready.volume;
        scripts = keep config_map r.namespace r.versioned_name ready.scripts;
        keys = keep secret r.namespace r.versioned_name ready.keys;
        binding = keep role_binding r.namespace r.versioned_name ready.binding;
        rights = keep role r.namespace r.versioned_name ready.rights;
        account = keep service_account r.namespace r.service_account ready.account;
      })
