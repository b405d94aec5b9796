-- ===== src/Controller/Objects.antt =====
-- The objects that a workflow needs: generateConfigMap, generateServiceAccount, generateRole,
-- generateRoleBinding, generatePVC, generateSecret and generateJob of
-- pkg/controllers/terraform_controller.go.
pub mod Jobs
use terraform_operator.Prelude.{
  String, Bool, true, false, List, [], ◌∷◌, ◌++◌, ◌==◌, if◌then◌else◌, Option, none, some, ◌&&◌,
  ◌||◌, not, insert, insert_all, lookup, split, contains,
}
use terraform_operator.Api.Spec.{StringMap, PolicyRule, Credentials}
use terraform_operator.Cluster.{
  ObjectMeta, ConfigMap, Secret, ServiceAccount, Role, RoleBinding, PersistentVolumeClaim, Pod, Job,
}
use terraform_operator.Controller.Options.{TaskOptions}
use terraform_operator.Controller.PodTemplate.{generated, invalid, generate_pod}

abbrev named : (name namespace : String) → (labels annotations : StringMap) → ObjectMeta
named name namespace labels annotations = record {
  name = name;
  generate_name = "";
  namespace = namespace;
  labels = labels;
  annotations = annotations;
  finalizers = [];
}

unfoldable pub generate_config_map : TaskOptions → ConfigMap
generate_config_map r = record {
  meta = named r.versioned_name r.namespace r.resource_labels [];
  data_map = r.main_module_plugin_data;
}

service_account_annotations : List Credentials → StringMap → StringMap
service_account_annotations [] annotations = annotations
service_account_annotations (c ∷ credentials) annotations =
    let own = insert_all c.service_account_annotations annotations in
    service_account_annotations credentials
      (if c.aws.irsa == "" then own else insert "eks.amazonaws.com/role-arn" c.aws.irsa own)

unfoldable pub generate_service_account : TaskOptions → ServiceAccount
unfolding service_account_annotations
generate_service_account r = record {
  meta =
      named r.service_account r.namespace r.resource_labels
        (service_account_annotations r.credentials []);
}

abbrev rule : (verbs api_groups resources resource_names : List String) → PolicyRule
rule verbs api_groups resources resource_names = record {
  verbs = verbs;
  api_groups = api_groups;
  resources = resources;
  resource_names = resource_names;
}

abbrev pub config_maps_rule : PolicyRule
config_maps_rule = rule ("*" ∷ []) ("" ∷ []) ("configmaps" ∷ []) []

abbrev pub secrets_rule : PolicyRule
secrets_rule = rule ("*" ∷ []) ("" ∷ []) ("secrets" ∷ []) []

abbrev pub leases_rule : PolicyRule
leases_rule = rule ("*" ∷ []) ("coordination.k8s.io" ∷ []) ("leases" ∷ []) []

-- The rule for the resource itself.
abbrev pub own_rule : String → PolicyRule
own_rule resource_name =
    rule ("get" ∷ []) ("tf.galleybytes.com" ∷ []) ("terraforms" ∷ []) (resource_name ∷ [])

-- Some line names the Kubernetes backend.
names_kubernetes : List String → Bool
names_kubernetes [] = false
names_kubernetes (line ∷ lines) =
    let rest = names_kubernetes lines in
    if contains line "backend " && contains line "kubernetes" then true else rest

abbrev or_empty : Option String → String
or_empty none = ""
or_empty (some text) = text

unfoldable pub uses_kubernetes_backend : TaskOptions → Bool
unfolding names_kubernetes
uses_kubernetes_backend r =
    let backend = or_empty (lookup "backend_override.tf" r.main_module_plugin_data) in
    not (backend == "") && names_kubernetes (split backend b'\n')

unfoldable pub generate_role : TaskOptions → Role
unfolding uses_kubernetes_backend
generate_role r = record {
  meta = named r.versioned_name r.namespace r.resource_labels [];
  rules =
      (config_maps_rule ∷ own_rule r.resource_name ∷ [])
      ++ ((if uses_kubernetes_backend r then secrets_rule ∷ leases_rule ∷ [] else [])
          ++ r.policy_rules);
}

unfoldable pub generate_role_binding : TaskOptions → RoleBinding
generate_role_binding r = record {
  meta = named r.versioned_name r.namespace r.resource_labels [];
  subject_name = r.service_account;
  subject_namespace = r.namespace;
  role_ref = r.versioned_name;
}

unfoldable pub generate_pvc : TaskOptions → String → Option String → PersistentVolumeClaim
generate_pvc r size storage_class_name = record {
  meta = named r.prefixed_name r.namespace r.resource_labels [];
  access_modes = "ReadWriteOnce" ∷ [];
  storage_class_name = storage_class_name;
  storage = size;
}

unfoldable pub generate_secret : (name namespace : String) → (contents labels : StringMap) → Secret
generate_secret name namespace contents labels = record {
  meta = named name namespace labels [];
  data_map = contents;
}

-- A pod of a job may only be restarted on failure, or never.
job_restart_policy : String → String
job_restart_policy policy =
    if policy == "Always" || policy == "OnFailure" then "OnFailure" else "Never"

job_of : Pod → Job
unfolding job_restart_policy
job_of pod = record {
  meta = pod.meta;
  backoff_limit = 1000000;
  spec = record (pod.spec) { restart_policy = job_restart_policy pod.spec.restart_policy };
}

-- `generateJob` drops the error of `generatePod`, and then reads the pod: `none` is the panic on
-- the missing pod.
unfoldable pub generate_job : TaskOptions → Option Job
unfolding job_of
generate_job r = elim (generate_pod r) [ generated pod ↦ some (job_of pod) | invalid e ↦ none ]
