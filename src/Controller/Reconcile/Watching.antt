-- ===== src/Controller/Reconcile/Watching.antt =====
-- One reconcile of pkg/controllers/terraform_controller.go at a stage: its pod is found, or the next
-- stage is.
use Prim.Native.String
use text.Mathlib.TextLemmas.{cons-append, head-eq_of_cons-eq}
use terraform_operator.Prelude.{
  eq_iff, ℕ, String, Bool, true, false, List, ◌∷◌, ◌≡◌, ◌≢◌, refl, sym, ap, ◌∙◌, arith, Option,
  none, some, ◌==◌, if◌then◌else◌, nat_beq, to_upper, text_cases, inl, inr, Char, code,
}
use terraform_operator.Utils.{list_contains_str}
use terraform_operator.Api.Task.{run_nil, TaskName}
use terraform_operator.Api.Stage.{
  Stage, StageState, phase_eq, deleted, state_complete, state_failed, state_initializing,
}
use terraform_operator.Api.Resource.{Terraform}
use terraform_operator.Cluster.{Pod, pod}
use terraform_operator.Cluster.Effects.{ok, ApiError, caught, api_result, pure}
use terraform_operator.Cluster.Client.{Client, got, delete_object}
use terraform_operator.Controller.Options.{new_task_options, Inherited}
use terraform_operator.Controller.Packages.{Packages}
use terraform_operator.Controller.Workflow.{
  PodLookup, next_task, get_configured_tasks, check_set_new_stage, checked, new_stage,
  is_task_interruptable, Checked,
}
use terraform_operator.Controller.Finalizers.{terraform_finalizer}
use terraform_operator.Controller.Reconcile.Beginning.{stays_finalized}
use terraform_operator.Controller.Reconcile.Start.{with_status}
use terraform_operator.Controller.Reconcile.Watch.{observe_pod, deletes_pod, current_pods}
use terraform_operator.Controller.Options.{new_task_options}
use terraform_operator.Controller.Run.{list_env_from_sources}
use terraform_operator.Controller.Workflow.Stages.{check_set_new_stage-unfinished}
use terraform_operator.Controller.Reconcile.Adopting.{old_plan_reason}
use terraform_operator.Controller.Reconcile.Passing.{IsSteady, prepare-steady, check-completed}
use terraform_operator.Controller.Reconcile.FirstSteps.{
  Keeps, Stored, save-Stored, sent-Stored, live-Stored, ne_test,
}
use terraform_operator.Controller.Reconcile.Program.{
  clean_old_plan, observe, with_pods, watch, work, done, read_and_reconcile, choose_stage,
  with_checked, lookup_of, move_on, proceed, only_logged, work, watch, save, finish, with_listed,
  with_pods, observe, stage_selector,
}

-- A resource at a stage of its generation, with nothing else to be done first.
pub record IsUnderWay (tf : Terraform) : Type 0 where
  pub live : phase_eq tf.status.phase deleted ≡ false
  pub finalized : list_contains_str tf.finalizers terraform_finalizer ≡ true
  pub not_ignored : tf.spec.ignore_delete ≡ false
  pub named : tf.status.pod_name_prefix ≢ ""
  pub started : nat_beq tf.status.stage.generation 0 ≡ false
  pub current : tf.status.stage.generation ≡ tf.generation
  pub steady : IsSteady tf
  pub working : tf.status.stage.task_type ≢ run_nil

-- The reason of a stage that follows a completed one restarts nothing.
no_restart :
    (task : TaskName) (tf : Terraform) (stage : Stage)
    → stage.reason ≡ String.◌++◌ "COMPLETED_" (to_upper task)
    → old_plan_reason tf stage ≡ none
unfolding old_plan_reason
no_restart task tf stage e =
    let x = to_upper task in
    let other : (target : String)
        → (rest : String) → target ≡ String.◌∷◌ "R" rest
        → (String.◌++◌ "COMPLETED_" x == target) ≡ false =
      λ target rest q. elim (text_cases (String.◌++◌ "COMPLETED_" x) target) [
        | inl (same, _) ↦
            let heads : ◌≡◌ {A = Char} "C" "R" =
              head-eq_of_cons-eq (sym (cons-append "C" "OMPLETED_" x) ∙ same ∙ q) in
            let codes : ◌≡◌ {A = ℕ} 67 82 = ap code heads in absurd (omega arith)
        | inr (_, differs) ↦ differs
      ] in
    rw
      (
        e,
        other "RESTARTED_WORKFLOW" "ESTARTED_WORKFLOW" refl,
        other "RESTARTED_DELETE_WORKFLOW" "ESTARTED_DELETE_WORKFLOW" refl,
      )
      refl

ne_nil : (t : TaskName) → t ≢ run_nil → (t == run_nil) ≡ false
ne_nil t n = ground (arith, eq_iff t run_nil)

module _ (c : Client) (k : Keeps c) (p : Packages) (inherited : Inherited) (now : ℕ)
    (tf : Terraform) (u : IsUnderWay tf) where
  open c use {World}

  -- The pod of the stage, as it is looked up.
  abbrev get_pod_at : World → String → String → PodLookup
  get_pod_at w namespace name = lookup_of (c.get pod namespace name w).0

  -- Such a resource comes to the choice of its stage.
  chooses :
      (suffix : String) (w : World) (found : Checked)
      → Stored c k p inherited now tf w
      → check_set_new_stage (get_pod_at w) now tf false ≡ found
      → read_and_reconcile c p inherited now tf.namespace tf.name suffix w
        ≡ with_checked c p inherited now found w
  unfolding proceed choose_stage
  chooses suffix w found h e =
      live-Stored c k p inherited now tf suffix w _ h u.live
        (stays_finalized tf u.live u.not_ignored u.finalized)
      ∙ rw (ne_test tf.status.pod_name_prefix u.named, u.started) refl
      ∙ ap
          (λ (x : Terraform × Bool).
            with_checked c p inherited now (check_set_new_stage (get_pod_at w) now x.0 x.1) w)
          (prepare-steady now tf u.steady)
      ∙ ap (λ x. with_checked c p inherited now x w) e

  logged_ends :
      (x : Option ApiError × World)
      → caught (api_result x) (λ e. pure (tt {0})) (λ _. pure tt) ≡ (ok tt, x.1)
  logged_ends (none, v) = refl
  logged_ends (some e, v) = refl

  -- The pod is deleted or kept.
  cleaned :
      (b : Bool) (found : Pod) (t : Terraform) (w : World)
      → Stored c k p inherited now t w
      → (w' : World) × ((if b
              then only_logged c p inherited now (delete_object c pod found)
              else pure tt)
            w
          ≡ (ok tt, w'))
        × Stored c k p inherited now t w'
  cleaned true found t w h = (
    (c.delete pod found w).1,
    logged_ends (c.delete pod found w),
    k.delete pod found w t.namespace t.name ∙ h,
  )
  cleaned false found t w h = (w, refl, h)

  observe-ends :
      (t : Terraform) (found : Pod) (w w1 w2 : World)
      → save c p inherited now (observe_pod now found t) w ≡ (ok tt, w1)
      → (if deletes_pod t found
            then only_logged c p inherited now (delete_object c pod found)
            else pure tt)
          w1
        ≡ (ok tt, w2)
      → observe c p inherited now t found w ≡ (ok done, w2)
  unfolding observe
  observe-ends t found w w1 w2 e e' = rw (e, e') refl

  -- The options of the task do not matter for the pod that is found.
  work-observe :
      (w : World) (found : Pod) (pods : List Pod)
      → tf.status.retry_timestamp ≡ none
      → c.list_pods tf.namespace (stage_selector tf) w ≡ (got (found ∷ pods), w)
      → let tf' =
          (new_task_options p.md5 tf tf.status.stage.task_type tf.status.stage.generation
            (list_env_from_sources p.global_env tf)
            inherited
            p.require_approval_image).0 in
        work c p inherited now tf w ≡ observe c p inherited now tf' found w
  unfolding work watch with_pods new_task_options stage_selector current_pods
  work-observe w found pods r l =
      let env = list_env_from_sources p.global_env tf in
      let made =
        new_task_options p.md5 tf tf.status.stage.task_type tf.status.stage.generation env inherited
          p.require_approval_image in
      ap
        (λ (b : Bool).
          (if b
              then finish c p inherited now made.0 made.1
              else watch c p inherited now env made.0 made.1)
            w)
        (ne_nil tf.status.stage.task_type u.working)
      ∙ ap (λ x. with_listed c p inherited now env made.0 made.1 x) l
      ∙ ap (λ o. with_pods c p inherited now env made.0 made.1 (current_pods o (found ∷ pods)) w) r

  -- A reconcile that finds the pod of an unfinished stage stores what it observed.
  pub observes :
      (suffix : String) (w : World) (found : Pod) (pods : List Pod)
      → Stored c k p inherited now tf w
      → tf.status.stage.state ≢ state_complete
      → tf.status.stage.state ≢ state_failed
      → tf.status.retry_timestamp ≡ none
      → c.list_pods tf.namespace (stage_selector tf) w ≡ (got (found ∷ pods), w)
      → (w' : World) × (read_and_reconcile c p inherited now tf.namespace tf.name suffix w
          ≡ (ok done, w'))
        × Stored c k p inherited now (observe_pod now found tf) w'
  unfolding new_task_options observe_pod
  observes suffix w found pods h n f r l =
      let env = list_env_from_sources p.global_env tf in
      let tf' =
        (new_task_options p.md5 tf tf.status.stage.task_type tf.status.stage.generation env
          inherited p.require_approval_image).0 in
      let seen = observe_pod now found tf in
      let (w1, saved, there) = sent-Stored c k p inherited now tf tf'.spec seen.status w h in
      let (w2, gone, there2) = cleaned (deletes_pod tf' found) found seen w1 there in
      (
        w2,
        chooses suffix w (checked tf none) h
              (check_set_new_stage-unfinished (get_pod_at w) now tf u.current n f)
            ∙ work-observe w found pods r l
            ∙ observe-ends tf' found w w1 w2 saved gone,
        there2,
      )

  move_on-ends :
      (stage : Stage) (w w1 : World)
      → old_plan_reason tf stage ≡ none
      → save c p inherited now (with_status tf (record (tf.status) { stage = stage })) w
        ≡ (ok tt, w1)
      → tf.spec.keep_latest_pods_only ≡ false
      → move_on c p inherited now tf stage w ≡ (ok done, w1)
  unfolding move_on clean_old_plan
  move_on-ends stage w w1 o e l = rw (o, e, l) refl

  -- The stage that follows a completed one.
  abbrev pub next_stage : Stage
  next_stage =
      let next = next_task tf.status.stage.task_type (get_configured_tasks tf.spec.task_options) in
      let reason = String.◌++◌ "COMPLETED_" (to_upper tf.status.stage.task_type) in
      let state : StageState = if next == run_nil then state_complete else state_initializing in
      (new_stage now tf next reason (is_task_interruptable next) state).1

  -- A reconcile of a completed stage stores the next one.
  pub moves :
      (suffix : String) (w : World)
      → Stored c k p inherited now tf w
      → tf.status.stage.state ≡ state_complete
      → tf.spec.keep_latest_pods_only ≡ false
      → (w' : World) × (read_and_reconcile c p inherited now tf.namespace tf.name suffix w
          ≡ (ok done, w'))
        × Stored c k p inherited now (with_status tf (record (tf.status) { stage = next_stage })) w'
  unfolding new_stage
  moves suffix w h n l =
      let (w1, saved, there) =
        save-Stored c k p inherited now tf (record (tf.status) { stage = next_stage }) w h in
      (
        w1,
        chooses suffix w (checked tf (some next_stage)) h
              (check-completed (get_pod_at w) now tf u.working u.current n)
            ∙ move_on-ends next_stage w w1 (no_restart tf.status.stage.task_type tf next_stage refl)
                saved l,
        there,
      )
