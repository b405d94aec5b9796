-- ===== src/Controller/PodTemplate/Template.antt =====
-- The pod of a task: generatePod of pkg/controllers/terraform_controller.go.
use Prim.Native.String
use terraform_operator.Prelude.{
  String, Bool, true, List, [], ◌∷◌, ◌++◌, ◌==◌, if◌then◌else◌, none, some, ◌&&◌, insert,
  insert_all, int_beq, negsuc,
}
use terraform_operator.Utils.{list_contains_str}
use terraform_operator.Api.Task.{id}
use terraform_operator.Api.Stage.{zero_time}
use terraform_operator.Api.Spec.{
  StringMap, EnvFromSource, secret_ref, Volume, Credentials, SecretNameRef,
}
use terraform_operator.Controller.Options.{TaskOptions}
use terraform_operator.Cluster.{Pod, Container, SecurityContext, other_phase}
use terraform_operator.Controller.PodTemplate.Validation.{volume_names, validate_volume}
use terraform_operator.Controller.PodTemplate.Env.{pod_env}
use terraform_operator.Controller.PodTemplate.Mounts.{pod_volumes, pod_volume_mounts}

unfoldable pub add_kiam : List Credentials → StringMap → StringMap
add_kiam [] annotations = annotations
add_kiam (c ∷ credentials) annotations = add_kiam credentials (
    if c.aws.kiam == ""
    then annotations
    else insert "iam.amazonaws.com/role" c.aws.kiam annotations)

abbrev pub is_unset : SecretNameRef → Bool
is_unset ref = ref.name == "" && ref.namespace == "" && ref.key == ""

unfoldable pub secret_env_from : List Credentials → List EnvFromSource
secret_env_from [] = []
secret_env_from (c ∷ credentials) =
    let rest = secret_env_from credentials in
    if is_unset c.secret_name_ref then rest else secret_ref c.secret_name_ref.name ∷ rest

-- The volumes of a sidecar that the pod has no volume of that name for yet.
unfoldable pub new_volumes : List String → List Volume → List Volume
new_volumes names [] = []
new_volumes names (v ∷ volumes) =
    let rest = new_volumes names volumes in
    if list_contains_str names v.name then rest else v ∷ rest

unfoldable pub add_sidecars : List Pod → List Container → List Volume → List Container × List Volume
unfolding new_volumes
add_sidecars [] containers volumes = (containers, volumes)
add_sidecars (sidecar ∷ sidecars) containers volumes =
    add_sidecars sidecars (containers ++ sidecar.spec.containers)
      (volumes ++ new_volumes (volume_names volumes) sidecar.spec.volumes)

abbrev pub task_security : SecurityContext
task_security = record { run_as_user = 2000; run_as_group = 2000; run_as_non_root = true }

unfoldable pub task_container : TaskOptions → Container
unfolding pod_env pod_volume_mounts secret_env_from
task_container r = record {
  name = if int_beq (id r.task) (negsuc 1) then r.task else "task";
  security_context = task_security;
  image = r.image;
  image_pull_policy = r.image_pull_policy;
  env_from = r.env_from ++ secret_env_from r.credentials;
  env = pod_env r;
  volume_mounts = pod_volume_mounts r;
}

unfoldable pub pod_labels : TaskOptions → StringMap
pod_labels r = insert "app.kubernetes.io/instance" r.task (insert_all r.resource_labels r.labels)

-- The pod of valid options; its name, uid and time are the API server's.
unfoldable pub pod_of : TaskOptions → Pod
unfolding task_container pod_volumes pod_labels add_sidecars add_kiam
pod_of r =
    let (containers, volumes) =
      add_sidecars r.sidecar_plugins (task_container r ∷ []) (pod_volumes r) in
    record {
      meta = record {
        name = "";
        generate_name = String.◌++◌ r.versioned_name (String.◌++◌ "-" (String.◌++◌ r.task "-"));
        namespace = r.namespace;
        labels = pod_labels r;
        annotations = add_kiam r.credentials r.annotations;
        finalizers = [];
      };
      uid = "";
      creation_timestamp = zero_time;
      spec = record {
        affinity = r.inherited_affinity;
        node_selector = r.inherited_node_selector;
        tolerations = r.inherited_tolerations;
        fs_group = 2000;
        service_account_name = r.service_account;
        restart_policy = r.restart_policy;
        containers = containers;
        volumes = volumes;
      };
      phase = other_phase "";
    }

-- `generatePod`: an error, or the pod.
pub data Generated : Type 0 where
  generated : Pod → Generated
  invalid : String → Generated

unfoldable pub generate_pod : TaskOptions → Generated
unfolding validate_volume
generate_pod r = elim (validate_volume r.task r.volumes r.volume_mounts) [
  | some e ↦ invalid e
  | none ↦ generated (pod_of r)
]
