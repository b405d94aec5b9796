-- ===== src/Controller/Reconcile/Prepare.antt =====
-- Deletion and retries before the next stage is chosen.
use terraform_operator.Prelude.{
  sym, Option-cases, ℕ, String, true, false, ◌≡◌, ◌≢◌, refl, arith, eq_iff, some, inl, inr, lookup,
  if◌then◌else◌, has_suffix, ap, ◌∙◌,
}
use terraform_operator.Api.Task.{TaskName, run_init, run_setup}
use terraform_operator.Api.Stage.{initializing, Time, unix, state_initializing}
use terraform_operator.Api.Resource.{Terraform}
use terraform_operator.Controller.Workflow.{PodLookup, move, decide, is_task_interruptable}
use terraform_operator.Controller.Reconcile.Marking.{
  mark_deletion, retry_with, detect_retry, prepare, in_delete_phase, change_cause,
}

-- A resource with a retry recorded.
abbrev retried : ℕ → String → Terraform → Terraform
retried now label tf = record tf {
  status = record (tf.status) {
    retry_event_reason = some label;
    retry_timestamp = some (unix now);
    phase = initializing;
  };
}

retry_with-new :
    (now : ℕ) (tf : Terraform) (label : String)
    → tf.status.retry_event_reason ≢ some label
    → retry_with now tf (some label) ≡ (retried now label tf, true)
unfolding retry_with
retry_with-new now tf label n = elim (Option-cases tf.status.retry_event_reason) [
  | inl e ↦ ground arith
  | inr (reason, e) ↦ ground (arith, eq_iff reason label, λ (q : reason ≡ label). n (e ∙ ap some q))
]

-- Marking a deletion changes the phase alone.
mark_deletion-keeps :
    (tf : Terraform)
    → ((mark_deletion tf).labels ≡ tf.labels)
      × ((mark_deletion tf).status.retry_event_reason ≡ tf.status.retry_event_reason)
      × ((mark_deletion tf).status.stage ≡ tf.status.stage)
      × ((mark_deletion tf).generation ≡ tf.generation)
unfolding mark_deletion
mark_deletion-keeps tf = ground arith

decide-retried :
    (get_pod : String → String → PodLookup) (now : ℕ) (label : String) (tf : Terraform)
    → tf.status.stage.generation ≡ tf.generation
    → let task : TaskName = if has_suffix label ".setup" then run_setup else run_init in
      decide get_pod (retried now label tf) true
      ≡ move task label (is_task_interruptable task) state_initializing
unfolding decide
decide-retried get_pod now label tf g = ground arith

module _ (now : ℕ) (tf : Terraform) where
  -- A resource that is marked for deletion is in a delete phase when the next stage is chosen,
  -- if no retry is asked for.
  pub prepare-deletion :
      (t : Time)
      → tf.deletion_timestamp ≡ some t
      → (prepare now tf).1 ≡ false
      → in_delete_phase (prepare now tf).0.status.phase ≡ true
  unfolding prepare
  prepare-deletion t d r = ground arith

  -- A retry puts the resource into the phase initializing, also one that is marked for deletion
  -- or in the middle of it: the next stage is then the init or the setup task of the workflow
  -- that creates, never one of the workflow that deletes.
  pub decide-retry :
      (get_pod : String → String → PodLookup) (label : String)
      → lookup change_cause tf.labels ≡ some label
      → tf.status.retry_event_reason ≢ some label
      → tf.status.stage.generation ≡ tf.generation
      → let task : TaskName = if has_suffix label ".setup" then run_setup else run_init in
        ((prepare now tf).0.status.phase ≡ initializing)
        × (decide get_pod (prepare now tf).0 (prepare now tf).1
            ≡ move task label (is_task_interruptable task) state_initializing)
  unfolding prepare detect_retry
  decide-retry get_pod label l n g =
      let (labels, reason, stage, generation) = mark_deletion-keeps tf in
      let found : lookup change_cause (mark_deletion tf).labels ≡ some label =
        ap (lookup change_cause) labels ∙ l in
      let same : prepare now tf ≡ (retried now label (mark_deletion tf), true) =
        ap (retry_with now (mark_deletion tf)) found
        ∙ retry_with-new now (mark_deletion tf) label (λ e. n (sym reason ∙ e)) in
      rw same (
        refl,
        decide-retried get_pod now label (mark_deletion tf)
            (ap (λ st. st.generation) stage ∙ g ∙ sym generation),
      )
