-- ===== src/Cluster.antt =====
-- The cluster as the operator sees it: the kinds of objects that it creates, and the client of the
-- API server, which is not part of the repository and stands as a parameter.
pub mod Effects
pub mod Client
pub mod Posts
pub mod Moving
use terraform_operator.Prelude.{ℕ, String, Bool, true, false, List, Option}
use terraform_operator.Api.Spec.{StringMap, EnvVar, EnvFromSource, Volume, VolumeMount, PolicyRule}
use terraform_operator.Api.Stage.{Time}

-- `metav1.ObjectMeta`, the fields that the operator sets or reads.
pub record ObjectMeta : Type 0 where
  pub name : String
  pub generate_name : String
  pub namespace : String
  pub labels : StringMap
  pub annotations : StringMap
  pub finalizers : List String

pub record ConfigMap : Type 0 where
  pub meta : ObjectMeta
  pub data_map : StringMap

-- The bytes of a secret are read as a text.
pub record Secret : Type 0 where
  pub meta : ObjectMeta
  pub data_map : StringMap

pub record ServiceAccount : Type 0 where
  pub meta : ObjectMeta

pub record Role : Type 0 where
  pub meta : ObjectMeta
  pub rules : List PolicyRule

-- The one subject is a service account, and the reference is to a role.
pub record RoleBinding : Type 0 where
  pub meta : ObjectMeta
  pub subject_name : String
  pub subject_namespace : String
  pub role_ref : String

pub record PersistentVolumeClaim : Type 0 where
  pub meta : ObjectMeta
  pub access_modes : List String
  pub storage_class_name : Option String
  pub storage : String

pub record SecurityContext : Type 0 where
  pub run_as_user : ℕ
  pub run_as_group : ℕ
  pub run_as_non_root : Bool

pub record Container : Type 0 where
  pub name : String
  pub security_context : SecurityContext
  pub image : String
  pub image_pull_policy : String
  pub env_from : List EnvFromSource
  pub env : List EnvVar
  pub volume_mounts : List VolumeMount

-- Scheduling constraints are carried as the text of their manifest.
pub record PodSpec : Type 0 where
  pub affinity : Option String
  pub node_selector : StringMap
  pub tolerations : List String
  pub fs_group : ℕ
  pub service_account_name : String
  pub restart_policy : String
  pub containers : List Container
  pub volumes : List Volume

-- `corev1.PodPhase`: the two values that the operator tests, and any other text.
pub data PodPhase : Type 0 where
  pod_failed pod_succeeded : PodPhase
  other_phase : String → PodPhase

pub record Pod : Type 0 where
  pub meta : ObjectMeta
  pub uid : String
  pub creation_timestamp : Time
  pub spec : PodSpec
  pub phase : PodPhase

pub record Job : Type 0 where
  pub meta : ObjectMeta
  pub backoff_limit : ℕ
  pub spec : PodSpec

pub data Kind : Type 0 where
  config_map secret service_account role role_binding claim pod job : Kind

abbrev pub Object : Kind → Type 0
Object config_map = ConfigMap
Object secret = Secret
Object service_account = ServiceAccount
Object role = Role
Object role_binding = RoleBinding
Object claim = PersistentVolumeClaim
Object pod = Pod
Object job = Job

abbrev pub meta_of : (kind : Kind) → Object kind → ObjectMeta
meta_of config_map o = o.meta
meta_of secret o = o.meta
meta_of service_account o = o.meta
meta_of role o = o.meta
meta_of role_binding o = o.meta
meta_of claim o = o.meta
meta_of pod o = o.meta
meta_of job o = o.meta
