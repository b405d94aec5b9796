-- ===== src/Controller/Reconcile/Finish.antt =====
-- The end of a workflow, in Reconcile of pkg/controllers/terraform_controller.go.
use terraform_operator.Prelude.{String, [], ◌∷◌, if◌then◌else◌, Option, none, some, insert_all, map}
use terraform_operator.Utils.{list_contains_str}
use terraform_operator.Api.Stage.{completed, running, deleting, deleted, phase_eq}
use terraform_operator.Api.Spec.{StringMap}
use terraform_operator.Api.Resource.{Terraform}
use terraform_operator.Controller.Reconcile.Start.{with_status}

-- The outputs that stay: those that the secret has too.
unfoldable pub keep_outputs : StringMap → StringMap → StringMap
keep_outputs contents [] = []
keep_outputs contents ((key, text) ∷ outputs) =
    let rest = keep_outputs contents outputs in
    if list_contains_str (map (λ (e : String × String). e.0) contents) key
    then (key, text) ∷ rest
    else rest

unfoldable pub merge_outputs : StringMap → StringMap → StringMap
unfolding keep_outputs
merge_outputs contents outputs = insert_all contents (keep_outputs contents outputs)

-- The end of a workflow: `contents` is the data of the outputs secret, which is empty if it could
-- not be loaded. `none` leaves the resource alone.
unfoldable pub finish_workflow : StringMap → Terraform → Option Terraform
unfolding merge_outputs
finish_workflow contents tf =
    if phase_eq tf.status.phase running
    then some (
        with_status tf (record (tf.status) {
          phase = completed;
          outputs =
              if tf.spec.write_outputs_to_status
              then merge_outputs contents tf.status.outputs
              else tf.status.outputs;
        }))
    else if phase_eq tf.status.phase deleting
    then some (with_status tf (record (tf.status) { phase = deleted }))
    else none
