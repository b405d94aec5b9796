-- ===== src/Tests/Beginnings.antt =====
-- The start of a new resource in a cluster with nothing else.
use terraform_operator.Prelude.{
  String, Bool, true, false, List, [], ◌≡◌, refl, arith, Option, none, some, if◌then◌else◌, eq_refl,
}
use terraform_operator.Utils.{list_contains_str}
use terraform_operator.Api.Stage.{unset}
use terraform_operator.Api.Spec.{TerraformSpec}
use terraform_operator.Api.Resource.{Terraform, TerraformStatus}
use terraform_operator.Cluster.Effects.{ok}
use terraform_operator.Cluster.Client.{got}
use terraform_operator.Controller.Reconcile.{with_status}
use terraform_operator.Controller.Reconcile.Program.{done, read_and_reconcile}
use terraform_operator.Controller.Reconcile.FirstSteps.{Keeps}
use terraform_operator.Controller.Reconcile.Beginning.{IsStarted, read_and_reconcile-IsStarted}
use terraform_operator.Tests.Fixtures.{site, stage_of}
use terraform_operator.Tests.Setups.{packages, nothing_inherited}
use terraform_operator.Tests.Reconciles.{single, is_named}

abbrev pub single_stored : String → String → Terraform → Option Terraform
single_stored ns n w = if is_named ns n w then some w else none

is_named_self : (w : Terraform) → is_named w.namespace w.name w ≡ true
is_named_self w = rw (eq_refl w.namespace, eq_refl w.name) refl

some_at : (b : Bool) (w tf : Terraform) → (if b then some w else none) ≡ some tf → w ≡ tf
some_at true w tf e = ground arith
some_at false w tf e = absurd (ground arith)

single_is : (tf w : Terraform) → single_stored tf.namespace tf.name w ≡ some tf → w ≡ tf
single_is tf w e = some_at (is_named tf.namespace tf.name w) w tf e

pub single_read :
    (tf w : Terraform)
    → single_stored tf.namespace tf.name w ≡ some tf
    → single.get_terraform tf.namespace tf.name w ≡ (got tf, w)
single_read tf w e = rw (single_is tf w e, is_named_self tf) refl

pub single_updates :
    (tf : Terraform) (finalizers : List String) (w : Terraform)
    → single_stored tf.namespace tf.name w ≡ some tf
    → let tf' : Terraform = record tf { finalizers = finalizers } in
      (w' : Terraform) × (single.update_terraform tf' w ≡ (none, w'))
      × (single_stored tf.namespace tf.name w' ≡ some tf')
single_updates tf finalizers w e =
    let tf' : Terraform = record tf { finalizers = finalizers } in
    (tf', rw (single_is tf w e, is_named_self tf) refl, rw (is_named_self tf) refl)

pub single_updates_status :
    (tf : Terraform) (spec : TerraformSpec) (status : TerraformStatus) (w : Terraform)
    → single_stored tf.namespace tf.name w ≡ some tf
    → let sent : Terraform = record tf { spec = spec; status = status } in
      (w' : Terraform) × (single.update_status sent w ≡ (none, w'))
      × (single_stored tf.namespace tf.name w' ≡ some (with_status tf status))
single_updates_status tf spec status w e =
    let tf' = with_status tf status in
    (tf', rw (single_is tf w e, is_named_self tf) refl, rw (is_named_self tf) refl)

abbrev pub single-Keeps : Keeps single
single-Keeps = record {
  stored = single_stored;
  read = λ tf w e. single_read tf w e;
  update = λ tf finalizers w e. single_updates tf finalizers w e;
  update_status = λ tf spec status w e. single_updates_status tf spec status w e;
  delete = λ kind o w ns n. refl;
}

-- As a user writes it, with no status.
abbrev fresh : Terraform
fresh =
    let tf = site unset (stage_of 0 "" "") in
    record tf { status = record (tf.status) { pod_name_prefix = ""; plugins_started = [] } }

started_example :
    (w1 w2 w3 : Terraform) × (tf' : Terraform) × (read_and_reconcile single packages
        nothing_inherited 1 "apps" "site" "a" fresh
      ≡ (ok done, w1))
    × (read_and_reconcile single packages nothing_inherited 2 "apps" "site" "abcdefgh" w1
        ≡ (ok done, w2))
    × (read_and_reconcile single packages nothing_inherited 3 "apps" "site" "b" w2 ≡ (ok done, w3))
    × (single_stored "apps" "site" w3 ≡ some tf')
    × IsStarted fresh tf'
unfolding list_contains_str
started_example =
    read_and_reconcile-IsStarted single single-Keeps packages nothing_inherited fresh fresh 1 2 3
      "a" "abcdefgh" "b" refl refl refl refl refl refl
