-- ===== src/Controller/Run/Moving.antt =====
-- What running a task does to the world at most.
use terraform_operator.Prelude.{
  String, Bool, true, false, [], ◌∷◌, if◌then◌else◌, Option, none, some, ◌==◌, ◌||◌, Bool-cases,
  inl, inr,
}
use terraform_operator.Api.Resource.{Terraform}
use terraform_operator.Cluster.{
  Kind, config_map, secret, service_account, role, role_binding, claim, Object,
}
use terraform_operator.Cluster.Effects.{ApiError, Error, is_already_exists, M, pure, ◌>>=◌, ◌>>◌}
use terraform_operator.Cluster.Client.{Client}
use terraform_operator.Cluster.Moving.{
  Moves, Allows, Moves-pure, Moves-fail, Moves-bind, Moves-then, Moves-if, update_object-Moves,
}
use terraform_operator.Controller.Options.{TaskOptions}
use terraform_operator.Controller.Ensure.{
  check_exists, create_pvc, create_secret, create_config_map, create_role_binding, create_role,
  create_service_account, create_pod, check_persistent_volume_claim_exists, check_config_map_exists,
  check_secret_exists, check_role_binding_exists, check_role_exists, check_service_account_exists,
}
use terraform_operator.Controller.Ensure.Moving.{
  check_exists-Moves, create_pvc-Moves, create_secret-Moves, create_config_map-Moves,
  create_role_binding-Moves, create_role-Moves, create_service_account-Moves, create_pod-Moves,
}
use terraform_operator.Controller.Run.{
  GlobalEnv, env_meta, is_nonempty, required, update_existing, create_or_update,
  create_env_from_sources, create_all, check_all, run,
}

module _ (c : Client) {R : c.World → c.World → Type 0} (a : Allows c R) where
  open c use {World}

  update_existing-moves :
      (kind : Kind) (o : Object kind) (w : World) (x : Option ApiError × World)
      → R w x.1
      → R w (update_existing c kind o x).1
  unfolding update_existing
  update_existing-moves kind o w (none, v) h = h
  update_existing-moves kind o w (some e, v) h = elim (Bool-cases (is_already_exists e)) [
    | inl b ↦ rw b (a.trans w v _ h ((update_object-Moves c a kind o).at v))
    | inr b ↦ rw b h
  ]

  create_or_update-Moves : (kind : Kind) (o : Object kind) → Moves R (create_or_update c kind o)
  unfolding create_or_update
  create_or_update-Moves kind o = record {
    at = λ w. update_existing-moves kind o w (c.create kind o w) (a.create kind o w);
  }

  create_env_from_sources-Moves :
      (g : GlobalEnv) (tf : Terraform) → Moves R (create_env_from_sources c g tf)
  unfolding create_env_from_sources
  create_env_from_sources-Moves g tf =
      Moves-then c a
        (if is_nonempty g.from_configmap_data
          then create_or_update c config_map
              (record { meta = env_meta g tf; data_map = g.from_configmap_data })
          else pure tt)
        _
        (Moves-if c a (is_nonempty g.from_configmap_data) _ _ (create_or_update-Moves config_map _)
          (Moves-pure c a tt))
        (Moves-if c a (is_nonempty g.from_secret_data) _ _ (create_or_update-Moves secret _)
          (Moves-pure c a tt))

  create_all-Moves :
      (g : GlobalEnv) (tf : Terraform) (r : TaskOptions) → Moves R (create_all c g tf r)
  unfolding create_all
  create_all-Moves g tf r =
      Moves-then c a (create_env_from_sources c g tf) _ (create_env_from_sources-Moves g tf) (
        Moves-then c a (create_pvc c tf r) _ (create_pvc-Moves c a tf r) (
          Moves-then c a (create_secret c r.versioned_name r.namespace r.secret_data true [] r) _
            (create_secret-Moves c a r.versioned_name r.namespace r.secret_data true [] r)
            (Moves-then c a (create_config_map c r) _ (create_config_map-Moves c a r) (
              Moves-then c a (create_role_binding c r) _ (create_role_binding-Moves c a r) (
                Moves-then c a (create_role c r) _ (create_role-Moves c a r) (
                  Moves-then c a
                    (if tf.spec.service_account == "" then create_service_account c r else pure tt)
                    _
                    (Moves-if c a (tf.spec.service_account == "") _ _
                      (create_service_account-Moves c a r) (Moves-pure c a tt))
                    (create_secret-Moves c a r.outputs_secret_name r.namespace [] false
                      (if r.strip_generation_label_on_outputs_secret
                        then "terraforms.tf.galleybytes.com/generation" ∷ []
                        else [])
                      r)))))))

  required-Moves : {A : Type 0} (e : Error) (o : Option A) → Moves {W = World} R (required e o)
  required-Moves e none = Moves-fail c a e
  required-Moves e (some _) = Moves-pure c a tt

  checked-Moves :
      (kind : Kind) (namespace name : String) (e : Error) (next : M World (Unit {0}))
      → Moves R next
      → Moves R (check_exists c kind namespace name >>= λ found. required e found >> next)
  checked-Moves kind namespace name e next h =
      Moves-bind c a (check_exists c kind namespace name) _
        (check_exists-Moves c a kind namespace name)
        (λ found. Moves-then c a (required e found) next (required-Moves e found) h)

  check_all-Moves : (r : TaskOptions) → Moves R (check_all c r)
  unfolding check_all check_persistent_volume_claim_exists check_config_map_exists
      check_secret_exists check_role_binding_exists check_role_exists check_service_account_exists
  check_all-Moves r = checked-Moves claim r.namespace r.prefixed_name _ _ (
      checked-Moves config_map r.namespace r.versioned_name _ _ (
        checked-Moves secret r.namespace r.versioned_name _ _ (
          checked-Moves role_binding r.namespace r.versioned_name _ _ (
            checked-Moves role r.namespace r.versioned_name _ _ (
              Moves-bind c a (check_exists c service_account r.namespace r.service_account) _
                (check_exists-Moves c a service_account r.namespace r.service_account)
                (λ account. required-Moves _ account))))))

  pub run-Moves :
      (g : GlobalEnv) (tf : Terraform) (r : TaskOptions) (is_new_generation is_first_install : Bool)
      → Moves R (run c g tf r is_new_generation is_first_install)
  unfolding run
  run-Moves g tf r is_new_generation is_first_install =
      Moves-then c a
        (if is_first_install || is_new_generation then create_all c g tf r else check_all c r)
        (create_pod c r)
        (Moves-if c a (is_first_install || is_new_generation) _ _ (create_all-Moves g tf r)
          (check_all-Moves r))
        (create_pod-Moves c a r)
