-- ===== src/Tests/Advancings.antt =====
-- A plan task whose pod has succeeded.
use terraform_operator.Prelude.{[], ◌∷◌, ◌≡◌, refl, arith, some, eq_iff, inl, lookup}
use terraform_operator.Utils.{list_contains_str}
use terraform_operator.Api.Task.{run_plan}
use terraform_operator.Api.Stage.{running, state_in_progress, state_complete, state_failed}
use terraform_operator.Api.Resource.{Terraform}
use terraform_operator.Cluster.Effects.{ok}
use terraform_operator.Cluster.Client.{Client, got}
use terraform_operator.Controller.Finalizers.{terraform_finalizer}
use terraform_operator.Controller.Reconcile.Program.{done, read_and_reconcile}
use terraform_operator.Controller.Reconcile.FirstSteps.{Keeps}
use terraform_operator.Controller.Reconcile.Watching.{IsUnderWay}
use terraform_operator.Controller.Reconcile.Advancing.{IsAdvanced, read_and_reconcile-IsAdvanced}
use terraform_operator.Tests.Fixtures.{site, stage_of}
use terraform_operator.Tests.Pods as Pods
use terraform_operator.Tests.Setups.{packages, nothing_inherited}
use terraform_operator.Tests.Reconciles.{single}
use terraform_operator.Tests.Beginnings.{single-Keeps, single_stored}

-- The cluster has the pod, and no other.
abbrev watched : Client
watched = record single { list_pods = λ ns cs w. (got (Pods.done ∷ []), w) }

abbrev watched-Keeps : Keeps watched
watched-Keeps = record {
  stored = single_stored;
  read = single-Keeps.read;
  update = single-Keeps.update;
  update_status = single-Keeps.update_status;
  delete = single-Keeps.delete;
}

abbrev planning : Terraform
planning = record (site running (stage_of 2 state_in_progress run_plan)) {
  finalizers = terraform_finalizer ∷ [];
}

planning-IsUnderWay : IsUnderWay planning
unfolding list_contains_str lookup
planning-IsUnderWay = record {
  live = refl;
  finalized = refl;
  not_ignored = refl;
  named = λ e. ground (arith, eq_iff "site-abcdefgh" "");
  started = refl;
  current = refl;
  steady = record { no_retry = refl; no_deletion = inl refl };
  working = λ e. ground (arith, eq_iff run_plan "");
}

advanced_example :
    (w1 w2 : Terraform) × (tf' : Terraform) × (read_and_reconcile watched packages nothing_inherited
        6 "apps" "site" "a" planning
      ≡ (ok done, w1))
    × (read_and_reconcile watched packages nothing_inherited 7 "apps" "site" "b" w1 ≡ (ok done, w2))
    × (single_stored "apps" "site" w2 ≡ some tf')
    × IsAdvanced planning tf'
advanced_example =
    read_and_reconcile-IsAdvanced watched watched-Keeps packages nothing_inherited planning
      Pods.done [] planning 6 7 "a" "b" planning-IsUnderWay refl
      (λ e. ground (arith, eq_iff state_in_progress state_complete))
      (λ e. ground (arith, eq_iff state_in_progress state_failed)) refl refl refl refl
