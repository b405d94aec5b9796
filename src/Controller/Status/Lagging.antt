-- ===== src/Controller/Status/Lagging.antt =====
-- updateStatusWithRetry of pkg/controllers/terraform_controller.go against a server whose reads do
-- not show what was written.
use terraform_operator.Prelude.{ℕ, zero, suc, false, none, ◌≡◌, refl, subst, arith, ◌+◌, ◌*◌}
use terraform_operator.Api.Resource.{Terraform, TerraformStatus}
use terraform_operator.Cluster.Effects.{ok}
use terraform_operator.Cluster.Client.{Client, got}
use terraform_operator.Controller.Status.{
  String, is_confirmed, confirm, update_loop, update_status_with_retry,
}
use terraform_operator.Controller.Status.Updates.{get_terraform_resource-got}

-- Worlds in which the server accepts a status, and answers with a resource that has another one:
-- the cache that is read lags behind, or others set the status back. The worlds and the resources
-- may change with each call; `Within n m` holds after `n` writes and `m` reads.
pub record Lags (c : Client) (namespace name : String) (desired : TerraformStatus)
    (Within : (n m : ℕ) → c.World → Type 0) : Type 0 where
  pub writes :
      (tf : Terraform) (n m : ℕ) (w : c.World)
      → Within n m w
      → (v : c.World) × (c.update_status tf w ≡ (none, v)) × Within (n + 1) m v
  pub reads :
      (n m : ℕ) (w : c.World)
      → Within n m w
      → (stored : Terraform) × (v : c.World) × (c.get_terraform namespace name w ≡ (got stored, v))
        × (is_confirmed c stored.status desired ≡ false)
        × Within n (m + 1) v

module _ (c : Client) (namespace name : String) (desired : TerraformStatus)
    (Within : (n m : ℕ) → c.World → Type 0) (lags : Lags c namespace name desired Within) where
  open c use {World}

  Within-eq : {n n' m m' : ℕ} (w : World) → n ≡ n' → m ≡ m' → Within n m w → Within n' m' w
  Within-eq {n} {n'} {m} {m'} w p q h =
      subst (λ (i : ℕ). Within i m' w) p (subst (λ (j : ℕ). Within n j w) q h)

  confirm-lagging :
      (rounds n m : ℕ) (w : World)
      → Within n m w
      → (v : World) × (confirm c rounds namespace name desired w ≡ (ok false, v))
        × Within n (m + rounds) v
  unfolding confirm
  confirm-lagging zero n m w h = (w, refl, Within-eq w refl (omega arith) h)
  confirm-lagging (suc rounds) n m w h =
      let (stored, v, read, other, h') = lags.reads n m w h in
      let (u, e, h'') = confirm-lagging rounds n (m + 1) v h' in
      (
        u,
        rw (get_terraform_resource-got c namespace name desired 10 stored w v read, other) e,
        Within-eq u refl (omega arith) h'',
      )

  update_loop-lagging :
      (rounds n m : ℕ) (w : World)
      → Within n m w
      → (v : World) × (update_loop c rounds namespace name desired none w ≡ (ok tt, v))
        × Within (n + rounds) (m + 11 * rounds) v
  unfolding update_loop
  update_loop-lagging zero n m w h = (w, refl, Within-eq w (omega arith) (omega arith) h)
  update_loop-lagging (suc rounds) n m w h =
      let (stored, w1, read, _, h1) = lags.reads n m w h in
      let (w2, sent, h2) = lags.writes (record stored { status = desired }) n (m + 1) w1 h1 in
      let (w3, looked, h3) = confirm-lagging 10 (n + 1) (m + 1) w2 h2 in
      let (w4, rest, h4) = update_loop-lagging rounds (n + 1) (m + 1 + 10) w3 h3 in
      (
        w4,
        rw (get_terraform_resource-got c namespace name desired 10 stored w w1 read, sent, looked)
            rest,
        Within-eq w4 (omega arith) (omega arith) h4,
      )

-- If the server accepts every status that is written, and no read ever shows the desired one,
-- because the reads lag behind or others set the status back, then `updateStatusWithRetry` ends
-- without an error, after ten writes and 109 reads.
pub update_status_with_retry-unconfirmed :
    (c : Client) (tf : Terraform) (desired : TerraformStatus)
    (Within : (n m : ℕ) → c.World → Type 0)
    → Lags c tf.namespace tf.name desired Within
    → (w : c.World) → Within 0 0 w
    → (v : c.World) × (update_status_with_retry c tf desired w ≡ (ok tt, v)) × Within 10 109 v
unfolding update_status_with_retry
update_status_with_retry-unconfirmed c tf desired Within lags w h =
    let (w1, sent, h1) = lags.writes tf 0 0 w h in
    let (w2, looked, h2) =
      confirm-lagging c tf.namespace tf.name desired Within lags 10 1 0 w1 h1 in
    let (w3, rest, h3) =
      update_loop-lagging c tf.namespace tf.name desired Within lags 9 1 10 w2 h2 in
    (w3, rw (sent, looked) rest, h3)
