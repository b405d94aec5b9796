-- ===== src/Tests/Reconciles.antt =====
-- Whole reconciles at concrete inputs.
use terraform_operator.Prelude.{
  String, Bool, true, false, [], ◌∷◌, ◌≡◌, refl, ap, ◌∙◌, sym, arith, Option, none, some, ◌==◌,
  ◌&&◌, if◌then◌else◌, eq_refl, lookup,
}
use terraform_operator.Api.Spec.{TerraformSpec}
use terraform_operator.Api.Resource.{Terraform}
use terraform_operator.Cluster.Effects.{ApiError, not_found}
use terraform_operator.Cluster.Client.{Client, Got, got, failed}
use terraform_operator.Controller.NodeSelectors.{Cache, Workloads}
use terraform_operator.Controller.Reconcile.Program.{lock_key, reconcile, read_and_reconcile}
use terraform_operator.Controller.Reconcile.Locked.{reconcile-locks}
use terraform_operator.Controller.Reconcile.SpecKept.{StoresSpecs, read_and_reconcile-spec}
use terraform_operator.Tests.Addresses.{with_tolerations}
use terraform_operator.Tests.Setups.{packages, nothing_inherited, created}

-- A cluster with one resource and nothing else.
abbrev pub is_named : String → String → Terraform → Bool
is_named ns n tf = tf.namespace == ns && tf.name == n

abbrev pub single_get : String → String → Terraform → Got Terraform × Terraform
single_get ns n w = if is_named ns n w then (got w, w) else (failed not_found, w)

abbrev single_update : Terraform → Terraform → Option ApiError × Terraform
single_update tf w =
    if is_named tf.namespace tf.name w
    then (none, record w { finalizers = tf.finalizers; spec = tf.spec })
    else (some not_found, w)

abbrev single_status : Terraform → Terraform → Option ApiError × Terraform
single_status tf w =
    if is_named tf.namespace tf.name w
    then (none, record w { status = tf.status })
    else (some not_found, w)

abbrev pub single : Client
single = record {
  World = Terraform;
  get = λ kind ns n w. (failed not_found, w);
  create = λ kind o w. (none, w);
  update = λ kind o w. (none, w);
  delete = λ kind o w. (none, w);
  delete_all_of = λ kind ns cs w. (none, w);
  list_pods = λ ns cs w. (got [], w);
  get_terraform = single_get;
  update_terraform = single_update;
  update_status = single_status;
}

abbrev single_spec : String → String → Terraform → Option TerraformSpec
single_spec ns n w = if is_named ns n w then some w.spec else none

got_or : {A : Type 0} → A → Got A → A
got_or d (got a) = a
got_or d (failed e) = d

some_or : {A : Type 0} → A → Option A → A
some_or d (some a) = a
some_or d none = d

named_self : (w : Terraform) → single_spec w.namespace w.name w ≡ some w.spec
named_self w = rw (eq_refl w.namespace, eq_refl w.name) refl

read_at :
    (b : Bool) (w w' tf : Terraform)
    → ◌≡◌ {A = Got Terraform × Terraform}
        (if b then (got w, w) else (failed not_found, w))
        (got tf, w')
    → single_spec tf.namespace tf.name w' ≡ some tf.spec
unfolding got_or
read_at true w w' tf e =
    let same : w ≡ tf = ap (λ (x : Got Terraform × Terraform). got_or w x.0) e in
    let world : w ≡ w' = ap (λ (x : Got Terraform × Terraform). x.1) e in
    ap (λ v. single_spec tf.namespace tf.name v) (sym world ∙ same) ∙ named_self tf
read_at false w w' tf e = absurd (ground arith)

written_at :
    (b : Bool) (tf w : Terraform) (ns n : String)
    → (if b then some w.spec else none) ≡ some tf.spec
    → let after : Option ApiError × Terraform =
        if b
        then (none, record w { finalizers = tf.finalizers; spec = tf.spec })
        else (some not_found, w) in
      single_spec ns n after.1 ≡ single_spec ns n w
unfolding some_or
written_at true tf w ns n h =
    ap (λ s. if is_named ns n w then some s else none) (sym (ap (some_or w.spec) h))
written_at false tf w ns n h = refl

kept_at :
    (b : Bool) (w : Terraform) (ns n : String)
    → let after : Got Terraform × Terraform = if b then (got w, w) else (failed not_found, w) in
      single_spec ns n after.1 ≡ single_spec ns n w
kept_at true w ns n = refl
kept_at false w ns n = refl

status_at :
    (b : Bool) (tf w : Terraform) (ns n : String)
    → let after : Option ApiError × Terraform =
        if b then (none, record w { status = tf.status }) else (some not_found, w) in
      single_spec ns n after.1 ≡ single_spec ns n w
status_at true tf w ns n = refl
status_at false tf w ns n = refl

abbrev single-StoresSpecs : StoresSpecs single
single-StoresSpecs = record {
  spec_of = single_spec;
  read = λ ns n w w' tf e. read_at (is_named ns n w) w w' tf e;
  written = λ tf w ns n h. written_at (is_named tf.namespace tf.name w) tf w ns n h;
  get = λ kind a b w ns n. refl;
  create = λ kind o w ns n. refl;
  update = λ kind o w ns n. refl;
  delete = λ kind o w ns n. refl;
  delete_all_of = λ kind a cs w ns n. refl;
  list_pods = λ a cs w ns n. refl;
  get_terraform = λ a b w ns n. kept_at (is_named a b w) w ns n;
  update_status = λ tf w ns n. status_at (is_named tf.namespace tf.name w) tf w ns n;
}

spec_example :
    single_spec "apps" "site"
      (read_and_reconcile single packages nothing_inherited 5 "apps" "site" "abcdefgh" created).1
    ≡ single_spec "apps" "site" created
spec_example =
    read_and_reconcile-spec single single-StoresSpecs packages nothing_inherited 5 "apps" "site"
      "abcdefgh" created "apps" "site"

abbrev single_workloads : Workloads Terraform
single_workloads = record {
  pod_owners = λ ns n w. (failed not_found, w);
  replica_set_owners = λ ns n w. (failed not_found, w);
  deployment = λ ns n w. (failed not_found, w);
}

-- Two requests are being worked on.
abbrev busy_cache : Cache
busy_cache = record {
  affinity = none;
  node_selector = none;
  tolerations = none;
  locks = (lock_key "apps" "other", "r1") ∷ [];
}

locks_example :
    lookup
      (lock_key "apps" "other")
      (reconcile single packages with_tolerations single_workloads "apps" "site" "r2" "abcdefgh" 5
        busy_cache created).1.locks
    ≡ lookup (lock_key "apps" "other") busy_cache.locks
locks_example =
    reconcile-locks single packages with_tolerations single_workloads "apps" "site" "r2" "abcdefgh"
      5 busy_cache created (lock_key "apps" "other")
