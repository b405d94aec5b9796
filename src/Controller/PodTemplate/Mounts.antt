-- ===== src/Controller/PodTemplate/Mounts.antt =====
-- The volumes of a task and where they are mounted, in generatePod of pkg/controllers/terraform_controller.go.
use terraform_operator.Prelude.{
  ℕ, String, Bool, true, false, List, [], ◌∷◌, ◌++◌, ◌==◌, if◌then◌else◌, none, some, ◌&&◌, not,
}
use terraform_operator.Utils.{list_contains_str}
use terraform_operator.Api.Spec.{
  StringMap, Volume, persistent_volume_claim, config_map, secret, KeyToPath, VolumeMount,
}
use terraform_operator.Controller.Options.{TaskOptions}
use terraform_operator.Controller.PodTemplate.Env.{home}

abbrev pub has_config_map_source : TaskOptions → Bool
has_config_map_source r =
    not (r.config_map_source_name == "") && not (r.config_map_source_key == "")

-- 0775
abbrev pub file_mode : ℕ
file_mode = 509

-- The keys of the secret that are SSH files. Go visits the map in any order.
unfoldable pub ssh_config_items : StringMap → List KeyToPath
ssh_config_items [] = []
ssh_config_items ((key, _) ∷ secrets) =
    let items = ssh_config_items secrets in
    if list_contains_str ("gitAskpass" ∷ []) key
    then items
    else record { key = key; path = key; mode = some file_mode } ∷ items

abbrev pub home_volume : TaskOptions → Volume
home_volume r = record { name = "tfohome"; source = persistent_volume_claim r.prefixed_name false }

abbrev pub source_volumes : TaskOptions → List Volume
source_volumes r =
    if has_config_map_source r
    then record { name = "config-map-source"; source = config_map r.config_map_source_name } ∷ []
    else []

abbrev pub system_volumes : TaskOptions → List Volume
system_volumes r =
    record { name = "main-module-addons"; source = config_map r.versioned_name }
    ∷ record {
      name = "gitaskpass";
      source =
          secret r.versioned_name none true
            (record { key = "gitAskpass"; path = "GIT_ASKPASS"; mode = some file_mode } ∷ []);
    }
    ∷ record {
      name = "ssh";
      source = secret r.versioned_name (some file_mode) true (ssh_config_items r.secret_data);
    }
    ∷ []

unfoldable pub pod_volumes : TaskOptions → List Volume
pod_volumes r = home_volume r ∷ (r.volumes ++ (source_volumes r ++ system_volumes r))

abbrev pub mount : String → String → VolumeMount
mount name path = record { name = name; mount_path = path; read_only = false }

abbrev pub source_mounts : TaskOptions → List VolumeMount
source_mounts r =
    if has_config_map_source r then mount "config-map-source" "/tmp/config-map-source" ∷ [] else []

abbrev pub system_mounts : List VolumeMount
system_mounts =
    mount "main-module-addons" "/tmp/main-module-addons"
    ∷ mount "gitaskpass" "/git/askpass"
    ∷ mount "ssh" "/tmp/ssh"
    ∷ []

unfoldable pub pod_volume_mounts : TaskOptions → List VolumeMount
pod_volume_mounts r = mount "tfohome" home ∷ (r.volume_mounts ++ (source_mounts r ++ system_mounts))
