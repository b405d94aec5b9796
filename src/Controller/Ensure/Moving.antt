-- ===== src/Controller/Ensure/Moving.antt =====
-- What creating one object does to the world at most.
use terraform_operator.Prelude.{
  String, Bool, List, [], if◌then◌else◌, Option, none, some, ◌&&◌, not, insert_all, Bool-cases, inl,
  inr,
}
use terraform_operator.Api.Spec.{StringMap}
use terraform_operator.Api.Resource.{Terraform}
use terraform_operator.Cluster.{
  Kind, secret, claim, pod, job, config_map, service_account, role, role_binding, Object, meta_of,
  Job,
}
use terraform_operator.Cluster.Effects.{
  crash, api, message, Result, ok, err, panic, pure, is_not_found, is_already_exists,
}
use terraform_operator.Cluster.Client.{Client, Got, got, failed, create_object}
use terraform_operator.Cluster.Moving.{
  Moves, Allows, Moves-pure, Moves-fail, Moves-crash, Moves-bind, Moves-then, Moves-attempt,
  Moves-if, create_object-Moves, delete_object-Moves,
}
use terraform_operator.Controller.Options.{TaskOptions}
use terraform_operator.Controller.PodTemplate.{Generated, generated, invalid, generate_pod}
use terraform_operator.Controller.Objects.{
  generate_pvc, generate_config_map, generate_secret, generate_service_account, generate_role,
  generate_role_binding, generate_job,
}
use terraform_operator.Controller.Ensure.{
  found_or_error, pvc_size, check_exists, delete_found, delete_if_exists, recreate,
  create_missing_claim, create_pvc, create_config_map, omit, tolerate, create_secret,
  create_service_account, create_role, create_role_binding, create_generated, create_pod,
  create_job, check_persistent_volume_claim_exists,
}

module _ (c : Client) {R : c.World → c.World → Type 0} (a : Allows c R) where
  open c use {World}

  found_or_error-moves :
      {A : Type 0} (w : World) (x : Got A × World) → R w x.1 → R w (found_or_error x).1
  found_or_error-moves w (got o, v) h = h
  found_or_error-moves w (failed e, v) h = elim (Bool-cases (is_not_found e)) [
    | inl b ↦ rw b h
    | inr b ↦ rw b h
  ]

  pub check_exists-Moves :
      (kind : Kind) (namespace name : String) → Moves R (check_exists c kind namespace name)
  unfolding check_exists
  check_exists-Moves kind namespace name = record {
    at = λ w. found_or_error-moves w (c.get kind namespace name w) (a.get kind namespace name w);
  }

  delete_found-Moves : (kind : Kind) (o : Option (Object kind)) → Moves R (delete_found c kind o)
  delete_found-Moves kind none = Moves-pure c a tt
  delete_found-Moves kind (some o) = delete_object-Moves c a kind o

  delete_if_exists-Moves :
      (kind : Kind) (namespace name : String) → Moves R (delete_if_exists c kind namespace name)
  unfolding delete_if_exists
  delete_if_exists-Moves kind namespace name =
      Moves-bind c a (check_exists c kind namespace name) (delete_found c kind)
        (check_exists-Moves kind namespace name) (delete_found-Moves kind)

  recreate-Moves : (kind : Kind) (o : Object kind) → Moves R (recreate c kind o)
  unfolding recreate
  recreate-Moves kind o =
      Moves-then c a (delete_if_exists c kind (meta_of kind o).namespace (meta_of kind o).name)
        (create_object c kind o) (delete_if_exists-Moves kind _ _) (create_object-Moves c a kind o)

  create_missing_claim-Moves :
      (o : Object claim) (found : Option (Object claim)) → Moves R (create_missing_claim c o found)
  create_missing_claim-Moves o none = create_object-Moves c a claim o
  create_missing_claim-Moves o (some _) = Moves-pure c a tt

  pub create_pvc-Moves : (tf : Terraform) (r : TaskOptions) → Moves R (create_pvc c tf r)
  unfolding create_pvc check_persistent_volume_claim_exists
  create_pvc-Moves tf r =
      Moves-attempt c a (check_exists c claim r.namespace r.prefixed_name) _ _
        (check_exists-Moves claim r.namespace r.prefixed_name) (λ e. Moves-pure c a tt)
        (create_missing_claim-Moves
          (generate_pvc r (pvc_size tf.spec.persistent_volume_size) tf.spec.storage_class_name))

  pub create_config_map-Moves : (r : TaskOptions) → Moves R (create_config_map c r)
  unfolding create_config_map
  create_config_map-Moves r = recreate-Moves config_map (generate_config_map r)

  tolerate-moves :
      (b : Bool) (w : World) (x : Result (Unit {0}) × World) → R w x.1 → R w (tolerate c b x).1
  tolerate-moves b w (err (api e), v) h = elim (Bool-cases (not b && is_already_exists e)) [
    | inl q ↦ rw q h
    | inr q ↦ rw q h
  ]
  tolerate-moves b w (err (message m), v) h = h
  tolerate-moves b w (ok u, v) h = h
  tolerate-moves b w (panic, v) h = h

  pub create_secret-Moves :
      (name namespace : String) (contents : StringMap) (recreated : Bool)
      (labels_to_omit : List String) (r : TaskOptions)
      → Moves R (create_secret c name namespace contents recreated labels_to_omit r)
  unfolding create_secret
  create_secret-Moves name namespace contents recreated labels_to_omit r =
      let o =
        generate_secret name namespace contents
          (omit c labels_to_omit (insert_all r.resource_labels [])) in
      Moves-then c a (if recreated then delete_if_exists c secret namespace name else pure tt)
        (λ w. tolerate c recreated (create_object c secret o w))
        (Moves-if c a recreated _ _ (delete_if_exists-Moves secret namespace name)
          (Moves-pure c a tt))
        (record {
          at = λ w.
              tolerate-moves recreated w (create_object c secret o w)
                ((create_object-Moves c a secret o).at w);
        })

  pub create_service_account-Moves : (r : TaskOptions) → Moves R (create_service_account c r)
  unfolding create_service_account
  create_service_account-Moves r = recreate-Moves service_account (generate_service_account r)

  pub create_role-Moves : (r : TaskOptions) → Moves R (create_role c r)
  unfolding create_role
  create_role-Moves r = recreate-Moves role (generate_role r)

  pub create_role_binding-Moves : (r : TaskOptions) → Moves R (create_role_binding c r)
  unfolding create_role_binding
  create_role_binding-Moves r = recreate-Moves role_binding (generate_role_binding r)

  create_generated-Moves : (p : Generated) → Moves R (create_generated c p)
  create_generated-Moves (generated p) = create_object-Moves c a pod p
  create_generated-Moves (invalid e) = Moves-fail c a (message e)

  pub create_pod-Moves : (r : TaskOptions) → Moves R (create_pod c r)
  unfolding create_pod
  create_pod-Moves r = create_generated-Moves (generate_pod r)

  pub create_job-Moves : (r : TaskOptions) → Moves R (create_job c r)
  unfolding create_job
  create_job-Moves r = made (generate_job r)
    where
      made :
          (o : Option Job)
          → Moves {W = World} {A = Unit {0}} R
              (elim o [ none ↦ crash | some j ↦ create_object c job j ])
      made none = Moves-crash c a
      made (some j) = create_object-Moves c a job j
