-- ===== src/Controller/Ensure/Laws.antt =====
-- What the create… methods leave behind on a cluster that nobody else writes to.
use mathlib.Core.Bool.{true≢false}
use terraform_operator.Controller.Objects.{generate_pvc, generate_secret}
use terraform_operator.Prelude.{
  insert_all, ◌⊎◌, String, Bool, true, false, List, [], ◌≡◌, ◌≢◌, sym, ap, ◌∙◌, subst, Option, none,
  some, arith, Bool-cases, inl, inr,
}
use terraform_operator.Api.Spec.{StringMap}
use terraform_operator.Api.Resource.{Terraform}
use terraform_operator.Cluster.{Kind, claim, secret, Object, meta_of}
use terraform_operator.Cluster.Effects.{
  already_exists, api_result-err, world_of, api_result-ok, api_result-world, api, message, Result,
  ok, err, panic, go_on, go_on-eq-ok, caught,
}
use terraform_operator.Cluster.Client.{Client, IsQuiet, create_object, delete_object}
use terraform_operator.Controller.Options.{TaskOptions}
use terraform_operator.Controller.Ensure.{
  create_missing_claim, pvc_size, omit, tolerate, check_exists, found_or_error, delete_found,
  delete_if_exists, recreate, create_pvc, create_secret, tolerate, omit, pvc_size,
}

module _ (c : Client) (q : IsQuiet c) where
  open c use {World}

  abbrev pub Has : Kind → (namespace name : String) → World → Type 0
  Has kind namespace name w = q.present kind namespace name w ≡ true

  -- A lookup of an object that is there finds it, and changes nothing.
  pub check_exists-Has :
      (kind : Kind) (namespace name : String) (w : World)
      → Has kind namespace name w
      → (o : Object kind) × (check_exists c kind namespace name w ≡ (ok (some o), w))
  unfolding check_exists
  check_exists-Has kind namespace name w h =
      let (o, e) = q.get_present kind namespace name w h in (o, ap found_or_error e)

  pub check_exists-absent :
      (kind : Kind) (namespace name : String) (w : World)
      → q.present kind namespace name w ≡ false
      → check_exists c kind namespace name w ≡ (ok none, w)
  unfolding check_exists
  check_exists-absent kind namespace name w h =
      ap found_or_error (q.get_absent kind namespace name w h)

  pub create_object-keeps :
      (kind : Kind) (o : Object kind) (w w' : World) (r : Result (Unit {0}))
      → create_object c kind o w ≡ (r, w')
      → (k : Kind) (namespace name : String) → Has k namespace name w
      → Has k namespace name w'
  create_object-keeps kind o w w' r e k namespace name h =
      subst (Has k namespace name) (api_result-world (c.create kind o w) e)
        (q.create_keeps kind o w k namespace name h)

  create_object-Has :
      (kind : Kind) (o : Object kind) (w w' : World)
      → create_object c kind o w ≡ (ok tt, w')
      → Has kind (meta_of kind o).namespace (meta_of kind o).name w'
  create_object-Has kind o w w' e = q.created kind o w w' (api_result-ok (c.create kind o w) e)

  delete_if_exists-keeps :
      (kind : Kind) (namespace name : String) (w w' : World)
      → delete_if_exists c kind namespace name w ≡ (ok tt, w')
      → (k : Kind) (namespace' name' : String) → k ≢ kind
      → Has k namespace' name' w
      → Has k namespace' name' w'
  unfolding delete_if_exists
  delete_if_exists-keeps kind namespace name w w' e k namespace' name' n h =
      elim (Bool-cases (q.present kind namespace name w)) [
        | inl p ↦
            let (o, f) = check_exists-Has kind namespace name w p in
            let e' : delete_object c kind o w ≡ (ok tt, w') =
              sym (ap (λ r. go_on r (delete_found c kind)) f) ∙ e in
            subst (Has k namespace' name') (api_result-world (c.delete kind o w) e')
              (q.delete_keeps kind o w k namespace' name' n h)
        | inr p ↦
            let f = check_exists-absent kind namespace name w p in
            let e' : ◌≡◌ {A = Result (Unit {0}) × World} (ok tt, w) (ok tt, w') =
              sym (ap (λ r. go_on r (delete_found c kind)) f) ∙ e in
            subst (Has k namespace' name') (world_of e') h
      ]

  -- A step that succeeds leaves the objects of the other kinds there, and its own object too.
  pub record Makes (kind : Kind) (namespace name : String) (w w' : World) : Type 0 where
    pub made : Has kind namespace name w'
    pub keeps : (k : Kind) (ns n : String) → k ≢ kind → Has k ns n w → Has k ns n w'

  pub recreate-Makes :
      (kind : Kind) (o : Object kind) (w w' : World)
      → recreate c kind o w ≡ (ok tt, w')
      → Makes kind (meta_of kind o).namespace (meta_of kind o).name w w'
  unfolding recreate
  recreate-Makes kind o w w' e =
      let namespace = (meta_of kind o).namespace in
      let name = (meta_of kind o).name in
      let (_, v, deleted, made) =
        go_on-eq-ok (delete_if_exists c kind namespace name w) (λ _. create_object c kind o) e in
      record {
        made = create_object-Has kind o v w' made;
        keeps = λ k ns n ne h.
            create_object-keeps kind o v w' (ok tt) made k ns n
              (delete_if_exists-keeps kind namespace name w v deleted k ns n ne h);
      }

  -- `createPVC` leaves a claim, and all other objects.
  pub create_pvc-Makes :
      (tf : Terraform) (r : TaskOptions) (w w' : World)
      → create_pvc c tf r w ≡ (ok tt, w')
      → Has claim r.namespace r.prefixed_name w'
        × ((k : Kind) (ns n : String) → Has k ns n w → Has k ns n w')
  unfolding create_pvc generate_pvc
  create_pvc-Makes tf r w w' e =
      let o = generate_pvc r (pvc_size tf.spec.persistent_volume_size) tf.spec.storage_class_name in
      let next = λ (x : Result (Option (Object claim)) × World).
        caught x (λ e v. (ok tt, v)) (create_missing_claim c o) in
      elim (Bool-cases (q.present claim r.namespace r.prefixed_name w)) [
        | inl p ↦
            let (_, f) = check_exists-Has claim r.namespace r.prefixed_name w p in
            let e' : ◌≡◌ {A = Result (Unit {0}) × World} (ok tt, w) (ok tt, w') =
              sym (ap next f) ∙ e in
            (
              subst (Has claim r.namespace r.prefixed_name) (world_of e') p,
              λ k ns n h. subst (Has k ns n) (world_of e') h,
            )
        | inr p ↦
            let f = check_exists-absent claim r.namespace r.prefixed_name w p in
            let e' : create_object c claim o w ≡ (ok tt, w') = sym (ap next f) ∙ e in
            (create_object-Has claim o w w' e', create_object-keeps claim o w w' (ok tt) e')
      ]

  tolerate-cases :
      (b : Bool) (x : Result (Unit {0}) × World) (w' : World)
      → tolerate c b x ≡ (ok tt, w')
      → (x ≡ (ok tt, w')) ⊎ (x ≡ (err (api already_exists), w'))
  tolerate-cases b (ok u, w) w' e = inl e
  tolerate-cases b (err (api a), w) w' e = ground arith
  tolerate-cases b (err (message m), w) w' e = ground arith
  tolerate-cases b (panic, w) w' e = ground arith

  -- A secret that was created, or was there already.
  tolerate-ok :
      (b : Bool) (o : Object secret) (w w' : World)
      → tolerate c b (create_object c secret o w) ≡ (ok tt, w')
      → Has secret (meta_of secret o).namespace (meta_of secret o).name w'
        × ((k : Kind) (ns n : String) → Has k ns n w → Has k ns n w')
  tolerate-ok b o w w' e = elim (tolerate-cases b (create_object c secret o w) w' e) [
    | inl f ↦ (create_object-Has secret o w w' f, create_object-keeps secret o w w' (ok tt) f)
    | inr f ↦ (
      q.existed secret o w w' (api_result-err (c.create secret o w) f),
      create_object-keeps secret o w w' (err (api already_exists)) f,
    )
  ]

  -- `createSecret` leaves the secret, and all other kinds; it deletes only what it recreates.
  pub create_secret-Makes :
      (name namespace : String) (contents : StringMap) (recreated : Bool) (keys : List String)
      (r : TaskOptions) (w w' : World)
      → create_secret c name namespace contents recreated keys r w ≡ (ok tt, w')
      → Makes secret namespace name w w'
        × (recreated ≡ false → (ns n : String) → Has secret ns n w → Has secret ns n w')
  unfolding create_secret generate_secret
  create_secret-Makes name namespace contents true keys r w w' e =
      let o =
        generate_secret name namespace contents (omit c keys (insert_all r.resource_labels [])) in
      let (_, v, deleted, made) =
        go_on-eq-ok (delete_if_exists c secret namespace name w)
          (λ _ u. tolerate c true (create_object c secret o u)) e in
      let done = tolerate-ok true o v w' made in
      (
        record {
          made = done.0;
          keeps = λ k ns n ne h.
              done.1 k ns n (delete_if_exists-keeps secret namespace name w v deleted k ns n ne h);
        },
        λ p. absurd (true≢false p),
      )
  create_secret-Makes name namespace contents false keys r w w' e =
      let o =
        generate_secret name namespace contents (omit c keys (insert_all r.resource_labels [])) in
      let done = tolerate-ok false o w w' e in
      (
        record { made = done.0; keeps = λ k ns n ne h. done.1 k ns n h },
        λ _ ns n h. done.1 secret ns n h,
      )
