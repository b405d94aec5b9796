-- ===== src/Controller/Status/Retries.antt =====
-- How the retries end.
use terraform_operator.Prelude.{ℕ, zero, suc, String, false, ◌≡◌, refl}
use terraform_operator.Api.Resource.{Terraform}
use terraform_operator.Cluster.Effects.{ApiError, is_not_found, api, Result, ok, err}
use terraform_operator.Cluster.Client.{Client, Got, got, failed}
use terraform_operator.Controller.Status.{read_again, get_terraform_resource}

module _ (c : Client) (namespace name : String) where
  open c use {World}

  -- Where `attempts` reads in a row, starting in the world `w`, come to: the last read answers
  -- with a resource or `NotFound`, or there is no attempt left.
  pub data Reads : ℕ → World → Result Terraform → World → Type 0 where
    answered :
        {more : ℕ} {w w' : World} (tf : Terraform)
        → c.get_terraform namespace name w ≡ (got tf, w')
        → Reads more w (ok tf) w'
    missing :
        {more : ℕ} {w w' : World}
        → c.get_terraform namespace name w ≡ (failed ApiError.not_found, w')
        → Reads more w (err (api ApiError.not_found)) w'
    exhausted :
        {w w' : World} (e : ApiError)
        → c.get_terraform namespace name w ≡ (failed e, w')
        → Reads zero w (err (api e)) w'
    again :
        {more : ℕ} {w v w' : World} {r : Result Terraform} (e : ApiError)
        → is_not_found e ≡ false
        → c.get_terraform namespace name w ≡ (failed e, v)
        → Reads more v r w'
        → Reads (suc more) w r w'

  read_again-Reads :
      (more : ℕ) (w : World) (x : Got Terraform × World)
      → c.get_terraform namespace name w ≡ x
      → Reads more w (read_again c more namespace name x).0 (read_again c more namespace name x).1
  unfolding read_again
  read_again-Reads more w (got tf, v) e = answered tf e
  read_again-Reads zero w (failed a, v) e = exhausted a e
  read_again-Reads (suc more) w (failed ApiError.not_found, v) e = missing e
  read_again-Reads (suc more) w (failed ApiError.already_exists, v) e =
      again ApiError.already_exists refl e
        (read_again-Reads more v (c.get_terraform namespace name v) refl)
  read_again-Reads (suc more) w (failed (ApiError.other t), v) e =
      again (ApiError.other t) refl e
        (read_again-Reads more v (c.get_terraform namespace name v) refl)

  -- `getTerraformResource` reads three times at most when it is given three attempts: it returns
  -- the first resource, stops at the first `NotFound`, and else returns the last error.
  pub get_terraform_resource-Reads :
      (w : World)
      → Reads 2 w
          (get_terraform_resource c namespace name 3 w).0
          (get_terraform_resource c namespace name 3 w).1
  unfolding get_terraform_resource
  get_terraform_resource-Reads w = read_again-Reads 2 w (c.get_terraform namespace name w) refl
