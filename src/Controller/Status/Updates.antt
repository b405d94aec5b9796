-- ===== src/Controller/Status/Updates.antt =====
-- How the writing of a status ends.
use terraform_operator.Prelude.{ℕ, suc, String, true, none, ◌≡◌}
use terraform_operator.Api.Resource.{Terraform, TerraformStatus}
use terraform_operator.Cluster.Effects.{ok}
use terraform_operator.Cluster.Client.{Client, got}
use terraform_operator.Controller.Status.{
  get_terraform_resource, is_confirmed, confirm, update_status_with_retry,
}

module _ (c : Client) (namespace name : String) (desired : TerraformStatus) where
  open c use {World}

  pub get_terraform_resource-got :
      (tries : ℕ) (stored : Terraform) (w v : World)
      → c.get_terraform namespace name w ≡ (got stored, v)
      → get_terraform_resource c namespace name tries w ≡ (ok stored, v)
  unfolding get_terraform_resource
  get_terraform_resource-got tries stored w v h = rw h

  confirm-confirmed :
      (rounds : ℕ) (stored : Terraform) (w v : World)
      → c.get_terraform namespace name w ≡ (got stored, v)
      → is_confirmed c stored.status desired ≡ true
      → confirm c (suc rounds) namespace name desired w ≡ (ok true, v)
  unfolding confirm
  confirm-confirmed rounds stored w v h n = rw (get_terraform_resource-got 10 stored w v h, n)

module _ (c : Client) (tf : Terraform) (desired : TerraformStatus) where
  open c use {World}

  -- A status that is written, and is the desired one when it is read back, needs one attempt.
  pub update_status_with_retry-confirmed :
      (stored : Terraform) (w v v' : World)
      → c.update_status tf w ≡ (none, v)
      → c.get_terraform tf.namespace tf.name v ≡ (got stored, v')
      → is_confirmed c stored.status desired ≡ true
      → update_status_with_retry c tf desired w ≡ (ok tt, v')
  unfolding update_status_with_retry
  update_status_with_retry-confirmed stored w v v' u h n =
      rw (u, confirm-confirmed c tf.namespace tf.name desired 9 stored v v' h n)
