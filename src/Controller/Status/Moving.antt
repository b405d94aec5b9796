-- ===== src/Controller/Status/Moving.antt =====
-- What reading the resource and writing its status does to the world at most.
use terraform_operator.Prelude.{
  ℕ, zero, suc, ◌-◌, String, Bool, true, false, if◌then◌else◌, Option, none, some, ◌≡◌, refl, ap,
  subst, arith, Bool-cases, inl, inr,
}
use terraform_operator.Api.Resource.{Terraform, TerraformStatus}
use terraform_operator.Cluster.Effects.{ApiError, Result, ok, M, pure, is_not_found}
use terraform_operator.Cluster.Client.{Client, Got, got, failed}
use terraform_operator.Cluster.Posts.{value_or}
use terraform_operator.Cluster.Moving.{
  Moves, Allows, Moves-pure, Moves-fail, Moves-bind, Moves-attempt, Moves-if,
}
use terraform_operator.Controller.Status.{
  read_again, get_terraform_resource, is_confirmed, confirm, give_up, after_update, update_loop,
  update_status_with_retry,
}

module _ (c : Client) {R : c.World → c.World → Type 0} (a : Allows c R) where
  open c use {World}

  read_again-moves :
      (more : ℕ) (namespace name : String) (w : World) (x : Got Terraform × World)
      → R w x.1
      → R w (read_again c more namespace name x).1
  unfolding read_again
  read_again-moves more namespace name w (got tf, v) h = h
  read_again-moves zero namespace name w (failed e, v) h = h
  read_again-moves (suc more) namespace name w (failed e, v) h =
      let next = c.get_terraform namespace name v in
      let further =
        read_again-moves more namespace name w next
          (a.trans w v next.1 h (a.get_terraform namespace name v)) in
      elim (Bool-cases (is_not_found e)) [ inl b ↦ rw b h | inr b ↦ rw b further ]

  pub get_terraform_resource-Moves :
      (namespace name : String) (tries : ℕ)
      → Moves R (get_terraform_resource c namespace name tries)
  unfolding get_terraform_resource
  get_terraform_resource-Moves namespace name tries = record {
    at = λ w.
        read_again-moves (tries - 1) namespace name w (c.get_terraform namespace name w)
          (a.get_terraform namespace name w);
  }

  confirm-Moves :
      (rounds : ℕ) (namespace name : String) (desired : TerraformStatus)
      → Moves R (confirm c rounds namespace name desired)
  unfolding confirm
  confirm-Moves zero namespace name desired = Moves-pure c a false
  confirm-Moves (suc rounds) namespace name desired =
      Moves-attempt c a (get_terraform_resource c namespace name 10) _ _
        (get_terraform_resource-Moves namespace name 10) (λ e. Moves-fail c a _)
        (λ tf.
          Moves-if c a (is_confirmed c tf.status desired) _ _ (Moves-pure c a true)
            (confirm-Moves rounds namespace name desired))

  give_up-Moves : (last : Option ApiError) → Moves R (give_up c last)
  give_up-Moves none = Moves-pure c a tt
  give_up-Moves (some e) = Moves-fail c a _

  after_update-moves :
      (confirming : M World Bool) (retry : Option ApiError → M World (Unit {0})) (w : World)
      (x : Option ApiError × World)
      → R w x.1
      → Moves R confirming
      → ((last : Option ApiError) → Moves R (retry last))
      → R w (after_update c confirming retry x).1
  after_update-moves confirming retry w (some e, v) h k l = a.trans w v _ h ((l (some e)).at v)
  after_update-moves confirming retry w (none, v) h k l = a.trans w v _ h (
      (Moves-bind c a confirming (λ confirmed. if confirmed then pure tt else retry none) k
          (λ confirmed. Moves-if c a confirmed _ _ (Moves-pure c a tt) (l none))).at
        v)

  update_loop-Moves :
      (rounds : ℕ) (namespace name : String) (desired : TerraformStatus) (last : Option ApiError)
      → Moves R (update_loop c rounds namespace name desired last)
  unfolding update_loop
  update_loop-Moves zero namespace name desired last = give_up-Moves last
  update_loop-Moves (suc rounds) namespace name desired last =
      Moves-attempt c a (get_terraform_resource c namespace name 10) _ _
        (get_terraform_resource-Moves namespace name 10) (λ e. Moves-fail c a _)
        (λ tf. record {
          at = λ w.
              after_update-moves (confirm c 10 namespace name desired)
                (update_loop c rounds namespace name desired) w
                (c.update_status (record tf { status = desired }) w)
                (a.update_status (record tf { status = desired }) w)
                (confirm-Moves 10 namespace name desired)
                (update_loop-Moves rounds namespace name desired);
        })

  pub update_status_with_retry-Moves :
      (tf : Terraform) (desired : TerraformStatus) → Moves R (update_status_with_retry c tf desired)
  unfolding update_status_with_retry
  update_status_with_retry-Moves tf desired = record {
    at = λ w.
        after_update-moves (confirm c 10 tf.namespace tf.name desired)
          (update_loop c 9 tf.namespace tf.name desired) w (c.update_status tf w)
          (a.update_status tf w) (confirm-Moves 10 tf.namespace tf.name desired)
          (update_loop-Moves 9 tf.namespace tf.name desired);
  }

-- Whatever holds of each resource that is read where it is read holds of the one that is returned.
module _ (c : Client) (P : Terraform → c.World → Type 0)
    (reads : (namespace name : String) (w w' : c.World) (tf : Terraform)
      → c.get_terraform namespace name w ≡ (got tf, w')
      → P tf w') where
  open c use {World}

  read_again-reads :
      (more : ℕ) (namespace name : String) (x : Got Terraform × World) (tf : Terraform) (w' : World)
      → ((t : Terraform) (v : World) → x ≡ (got t, v) → P t v)
      → read_again c more namespace name x ≡ (ok tf, w')
      → P tf w'
  unfolding read_again
  read_again-reads more namespace name (got t, v) tf w' h e =
      subst (P tf) (ap (λ y. y.1) e)
        (subst (λ t. P t v) (ap (λ (y : Result Terraform × World). value_or t y.0) e) (h t v refl))
  read_again-reads zero namespace name (failed e', v) tf w' h e = absurd (ground arith)
  read_again-reads (suc more) namespace name (failed e', v) tf w' h e =
      elim (Bool-cases (is_not_found e')) [
        | inl b ↦ absurd (ground arith)
        | inr b ↦
            read_again-reads more namespace name (c.get_terraform namespace name v) tf w'
              (λ t u. reads namespace name v u t) (rw b at e)
      ]

  pub get_terraform_resource-reads :
      (namespace name : String) (tries : ℕ) (w w' : World) (tf : Terraform)
      → get_terraform_resource c namespace name tries w ≡ (ok tf, w')
      → P tf w'
  unfolding get_terraform_resource
  get_terraform_resource-reads namespace name tries w w' tf e =
      read_again-reads (tries - 1) namespace name (c.get_terraform namespace name w) tf w'
        (λ t u. reads namespace name w u t) e
