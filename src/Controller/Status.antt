-- ===== src/Controller/Status.antt =====
-- Reading the resource and writing its status with retries: getTerraformResource, update,
-- updateStatus and updateStatusWithRetry of pkg/controllers/terraform_controller.go. The pauses
-- between the attempts are left out.
pub mod Moving
pub mod Retries
pub mod Updates
pub mod Lagging
use Prim.Native.String
use terraform_operator.Prelude.{
  ℕ, zero, suc, ◌-◌, String, Bool, true, false, ◌==◌, if◌then◌else◌, Option, none, some, ◌&&◌,
}
use terraform_operator.Api.Task.{task_lists_are_equal}
use terraform_operator.Api.Stage.{is_equal, phase_eq}
use terraform_operator.Api.Resource.{Terraform, TerraformStatus}
use terraform_operator.Cluster.Effects.{
  ApiError, is_not_found, Error, api, message, Result, ok, err, panic, M, pure, fail, ◌>>=◌, ◌>>◌,
  go_on, attempt, caught,
}
use terraform_operator.Cluster.Client.{Client, Got, got, failed}

abbrev api_text : ApiError → String
api_text ApiError.already_exists = "already exists"
api_text ApiError.not_found = "not found"
api_text (ApiError.other t) = t

abbrev pub error_text : Error → String
error_text (api e) = api_text e
error_text (message t) = t

-- `fmt.Errorf("…: %s", err)`
abbrev pub wrapped : String → Error → Error
wrapped before e = message (String.◌++◌ before (error_text e))

module _ (c : Client) where
  open c use {World}

  -- The attempts of `getTerraformResource` after one that answered `x`; `more` are left.
  read_again : ℕ → (namespace name : String) → Got Terraform × World → Result Terraform × World
  read_again more namespace name (got tf, w) = (ok tf, w)
  read_again zero namespace name (failed e, w) = (err (api e), w)
  read_again (suc more) namespace name (failed e, w) =
      let again = read_again more namespace name (c.get_terraform namespace name w) in
      if is_not_found e then (err (api e), w) else again

  -- `max_retry` is 3 or 10 where it is called.
  unfoldable pub get_terraform_resource :
      (namespace name : String) → (max_retry : ℕ) → M World Terraform
  unfolding read_again
  get_terraform_resource namespace name max_retry w =
      read_again (max_retry - 1) namespace name (c.get_terraform namespace name w)

  abbrev pub write_result : String → Option ApiError × World → Result (Unit {0}) × World
  write_result before (none, w) = (ok tt, w)
  write_result before (some e, w) = (err (wrapped before (api e)), w)

  unfoldable pub update : Terraform → M World (Unit {0})
  update tf w = write_result "failed to update tf resource: " (c.update_terraform tf w)

  unfoldable pub update_status : Terraform → M World (Unit {0})
  update_status tf w = write_result "failed to update tf status: " (c.update_status tf w)

  -- What counts as the desired status.
  abbrev pub is_confirmed : TerraformStatus → TerraformStatus → Bool
  is_confirmed status desired =
      task_lists_are_equal status.plugins_started desired.plugins_started
      && is_equal status.stage desired.stage == ""
      && phase_eq status.phase desired.phase
      && status.pod_name_prefix == desired.pod_name_prefix

  -- The inner loop: reads until the status is the desired one, `rounds` times at most.
  confirm : ℕ → (namespace name : String) → TerraformStatus → M World Bool
  unfolding get_terraform_resource
  confirm zero namespace name desired = pure false
  confirm (suc rounds) namespace name desired =
      let again = confirm rounds namespace name desired in
      attempt (get_terraform_resource namespace name 10)
        (λ e. fail (wrapped "failed to get latest terraform while validating status: " e))
        λ tf. if is_confirmed tf.status desired then pure true else again

  -- The end of the outer loop: `updateErr` is that of the last attempt.
  abbrev give_up : Option ApiError → M World (Unit {0})
  give_up none = pure tt
  give_up (some e) = fail (wrapped "failed to update tf status: " (api e))

  -- What follows `Status().Update`: another attempt, or the confirmation.
  abbrev after_update :
      (M World Bool)
      → (Option ApiError → M World (Unit {0}))
      → Option ApiError × World
      → Result (Unit {0}) × World
  after_update confirming retry (some e, w) = retry (some e) w
  after_update confirming retry (none, w) =
      (confirming >>= λ confirmed. if confirmed then pure tt else retry none) w

  -- The attempts after the first: the resource is read again, and given the desired status.
  update_loop :
      ℕ → (namespace name : String) → TerraformStatus → Option ApiError → M World (Unit {0})
  unfolding confirm get_terraform_resource
  update_loop zero namespace name desired last = give_up last
  update_loop (suc rounds) namespace name desired last =
      attempt (get_terraform_resource namespace name 10)
        (λ e. fail (wrapped "failed to get latest terraform while updating status: " e))
        λ tf w.
          after_update (confirm 10 namespace name desired)
            (update_loop rounds namespace name desired)
            (c.update_status (record tf { status = desired }) w)

  -- Ten attempts in all, the first with the resource as it stands.
  unfoldable pub update_status_with_retry : Terraform → TerraformStatus → M World (Unit {0})
  unfolding update_loop
  update_status_with_retry tf desired w =
      after_update (confirm 10 tf.namespace tf.name desired)
        (update_loop 9 tf.namespace tf.name desired) (c.update_status tf w)
