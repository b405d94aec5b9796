-- ===== src/Tests/Store.antt =====
-- A cluster that remembers which objects there are, to apply the theorems about a client to.
use terraform_operator.Prelude.{
  ◌∙◌, sym, ℕ, String, Bool, true, false, List, [], ◌∷◌, none, some, ◌==◌, nat_beq, ◌&&◌, ◌||◌,
  Option, ◌≡◌, ◌≢◌, refl, arith, if◌then◌else◌, eq_refl, Bool-cases, inl, inr,
}
use terraform_operator.Cluster.{
  Kind, config_map, secret, service_account, role, role_binding, claim, pod, job, Object,
  ObjectMeta, meta_of, PodSpec, other_phase,
}
use terraform_operator.Cluster.Effects.{ApiError, not_found, already_exists}
use terraform_operator.Cluster.Client.{Client, IsQuiet, Got, got, failed}
use terraform_operator.Api.Stage.{zero_time}

abbrev kind_code : Kind → ℕ
kind_code config_map = 0
kind_code secret = 1
kind_code service_account = 2
kind_code role = 3
kind_code role_binding = 4
kind_code claim = 5
kind_code pod = 6
kind_code job = 7

kind_code-ne : (k l : Kind) → nat_beq (kind_code k) (kind_code l) ≡ true → k ≡ l
kind_code-ne k l h = ground arith

kind_code_refl : (k : Kind) → nat_beq (kind_code k) (kind_code k) ≡ true
kind_code_refl k = ground arith

and-left : (a b c : Bool) → (a && b && c) ≡ true → a ≡ true
and-left true b c h = refl
and-left false b c h = h

abbrev pub Store : Type 0
Store = List (Kind × String × String)

is_key : Kind → String → String → Kind × String × String → Bool
is_key kind namespace name (k, ns, n) =
    nat_beq (kind_code k) (kind_code kind) && ns == namespace && n == name

is_key-kind :
    (kind : Kind) (ns n : String) (e : Kind × String × String)
    → is_key kind ns n e ≡ true
    → e.0 ≡ kind
unfolding is_key
is_key-kind kind ns n (k, a, b) h =
    kind_code-ne k kind (and-left (nat_beq (kind_code k) (kind_code kind)) (a == ns) (b == n) h)

is_key_self : (kind : Kind) (ns n : String) → is_key kind ns n (kind, ns, n) ≡ true
unfolding is_key
is_key_self kind ns n = ground (arith, eq_refl ns, eq_refl n, kind_code_refl kind)

unfoldable pub stored : Kind → String → String → Store → Bool
unfolding is_key
stored kind namespace name [] = false
stored kind namespace name (e ∷ w) = is_key kind namespace name e || stored kind namespace name w

unfoldable pub remove : Kind → String → String → Store → Store
unfolding is_key
remove kind namespace name [] = []
remove kind namespace name (e ∷ w) =
    let rest = remove kind namespace name w in
    if is_key kind namespace name e then rest else e ∷ rest

abbrev pub blank_meta : String → String → ObjectMeta
blank_meta namespace name = record {
  name = name;
  generate_name = "";
  namespace = namespace;
  labels = [];
  annotations = [];
  finalizers = [];
}

abbrev pub blank_spec : PodSpec
blank_spec = record {
  affinity = none;
  node_selector = [];
  tolerations = [];
  fs_group = 0;
  service_account_name = "";
  restart_policy = "";
  containers = [];
  volumes = [];
}

abbrev pub blank : (kind : Kind) → String → String → Object kind
blank config_map ns n = record { meta = blank_meta ns n; data_map = [] }
blank secret ns n = record { meta = blank_meta ns n; data_map = [] }
blank service_account ns n = record { meta = blank_meta ns n }
blank role ns n = record { meta = blank_meta ns n; rules = [] }
blank role_binding ns n = record {
  meta = blank_meta ns n;
  subject_name = "";
  subject_namespace = "";
  role_ref = "";
}
blank claim ns n = record {
  meta = blank_meta ns n;
  access_modes = [];
  storage_class_name = none;
  storage = "";
}
blank pod ns n = record {
  meta = blank_meta ns n;
  uid = "";
  creation_timestamp = zero_time;
  spec = blank_spec;
  phase = other_phase "";
}
blank job ns n = record { meta = blank_meta ns n; backoff_limit = 0; spec = blank_spec }

abbrev pub store_get : (kind : Kind) → String → String → Store → Got (Object kind) × Store
store_get kind ns n w =
    if stored kind ns n w then (got (blank kind ns n), w) else (failed not_found, w)

abbrev pub store_create : (kind : Kind) → Object kind → Store → Option ApiError × Store
store_create kind o w =
    let meta = meta_of kind o in
    if stored kind meta.namespace meta.name w
    then (some already_exists, w)
    else (none, (kind, meta.namespace, meta.name) ∷ w)

abbrev pub store : Client
store = record {
  World = Store;
  get = store_get;
  create = store_create;
  update = λ kind o w. (none, w);
  delete = λ kind o w. (none, remove kind (meta_of kind o).namespace (meta_of kind o).name w);
  delete_all_of = λ kind ns cs w. (none, w);
  list_pods = λ ns cs w. (got [], w);
  get_terraform = λ ns n w. (failed not_found, w);
  update_terraform = λ tf w. (none, w);
  update_status = λ tf w. (none, w);
}

is_key-ne :
    (kind k : Kind) (ns n ns' n' : String) (e : Kind × String × String)
    → k ≢ kind
    → is_key kind ns n e ≡ true
    → is_key k ns' n' e ≡ false
is_key-ne kind k ns n ns' n' e d h = elim (Bool-cases (is_key k ns' n' e)) [
  | inl p ↦ absurd (d (sym (is_key-kind k ns' n' e p) ∙ is_key-kind kind ns n e h))
  | inr p ↦ p
]

remove-keeps :
    (kind : Kind) (ns n : String) (w : Store) (k : Kind) (ns' n' : String)
    → k ≢ kind
    → stored k ns' n' w ≡ true
    → stored k ns' n' (remove kind ns n w) ≡ true
unfolding stored remove
remove-keeps kind ns n [] k ns' n' d h = h
remove-keeps kind ns n (e ∷ w) k ns' n' d h =
    let ih = remove-keeps kind ns n w k ns' n' d in
    elim (Bool-cases (is_key kind ns n e)) [
      | inl gone ↦ let other = is_key-ne kind k ns n ns' n' e d gone in rw gone (ih (rw other at h))
      | inr kept ↦ elim (Bool-cases (is_key k ns' n' e)) [
        | inl found ↦ rw (kept, found)
        | inr other ↦ rw (kept, other) (ih (rw other at h))
      ]
    ]

stored-cons :
    (kind k : Kind) (a b ns n : String) (w : Store)
    → stored k ns n w ≡ true
    → stored k ns n ((kind, a, b) ∷ w) ≡ true
unfolding stored
stored-cons kind k a b ns n w h = ground arith

stored-new : (kind : Kind) (ns n : String) (w : Store) → stored kind ns n ((kind, ns, n) ∷ w) ≡ true
unfolding stored
stored-new kind ns n w = ground (arith, is_key_self kind ns n)

get_stored :
    (kind : Kind) (ns n : String) (w : Store)
    → stored kind ns n w ≡ true
    → (o : Object kind) × (store_get kind ns n w ≡ (got o, w))
get_stored kind ns n w h = (blank kind ns n, rw h)

get_missing :
    (kind : Kind) (ns n : String) (w : Store)
    → stored kind ns n w ≡ false
    → store_get kind ns n w ≡ (failed not_found, w)
get_missing kind ns n w h = rw h

created_lem :
    (kind : Kind) (o : Object kind) (w w' : Store)
    → store_create kind o w ≡ (none, w')
    → stored kind (meta_of kind o).namespace (meta_of kind o).name w' ≡ true
created_lem kind o w w' h =
    let meta = meta_of kind o in ground (arith, stored-new kind meta.namespace meta.name w)

existed_lem :
    (kind : Kind) (o : Object kind) (w w' : Store)
    → store_create kind o w ≡ (some already_exists, w')
    → stored kind (meta_of kind o).namespace (meta_of kind o).name w' ≡ true
existed_lem kind o w w' h = ground arith

create_keeps_lem :
    (kind : Kind) (o : Object kind) (w : Store) (k : Kind) (ns n : String)
    → stored k ns n w ≡ true
    → stored k ns n (store_create kind o w).1 ≡ true
create_keeps_lem kind o w k ns n h =
    let meta = meta_of kind o in
    ground (arith, stored-cons kind k meta.namespace meta.name ns n w h)

pub store-IsQuiet : IsQuiet store
store-IsQuiet = record {
  present = stored;
  get_present = get_stored;
  get_absent = get_missing;
  created = created_lem;
  existed = existed_lem;
  create_keeps = create_keeps_lem;
  update_keeps = λ kind o w k ns n h. h;
  delete_keeps = λ kind o w k ns n d h.
      remove-keeps kind (meta_of kind o).namespace (meta_of kind o).name w k ns n d h;
}
