-- ===== src/Controller/Reconcile/Marking.antt =====
-- Deletion and retries, in Reconcile of pkg/controllers/terraform_controller.go.
use terraform_operator.Prelude.{
  ℕ, String, Bool, true, false, ◌==◌, if◌then◌else◌, Option, none, some, ◌&&◌, not, lookup,
}
use terraform_operator.Api.Stage.{
  StatusPhase, initializing, init_delete, deleting, deleted, Time, unix,
}
use terraform_operator.Api.Resource.{Terraform}
use terraform_operator.Controller.Reconcile.Start.{with_status}

abbrev pub is_set : Option Time → Bool
is_set none = false
is_set (some t) = true

-- `deletePhases` of `Reconcile`.
abbrev pub in_delete_phase : StatusPhase → Bool
in_delete_phase deleting = true
in_delete_phase init_delete = true
in_delete_phase deleted = true
in_delete_phase _ = false

unfoldable pub mark_deletion : Terraform → Terraform
mark_deletion tf =
    if is_set tf.deletion_timestamp && not (in_delete_phase tf.status.phase)
    then with_status tf (record (tf.status) { phase = init_delete })
    else tf

abbrev pub is_new_reason : Option String → String → Bool
is_new_reason none label = true
is_new_reason (some reason) label = not (reason == label)

abbrev pub change_cause : String
change_cause = "kubernetes.io/change-cause"

unfoldable pub retry_with : ℕ → Terraform → Option String → Terraform × Bool
retry_with now tf none = (tf, false)
retry_with now tf (some label) =
    if is_new_reason tf.status.retry_event_reason label
    then (
      with_status tf (record (tf.status) {
        retry_event_reason = some label;
        retry_timestamp = some (unix now);
        phase = initializing;
      }),
      true,
    )
    else (tf, false)

-- A retry is asked for by a change of the label.
unfoldable pub detect_retry : ℕ → Terraform → Terraform × Bool
unfolding retry_with
detect_retry now tf = retry_with now tf (lookup change_cause tf.labels)

-- What stands between the finalizers and the choice of a stage.
unfoldable pub prepare : ℕ → Terraform → Terraform × Bool
unfolding mark_deletion detect_retry
prepare now tf = detect_retry now (mark_deletion tf)
