-- ===== src/Controller/PodTemplate/Validation.antt =====
-- Which volumes a task may have: validateVolume of pkg/controllers/terraform_controller.go.
use Prim.Native.String
use terraform_operator.Prelude.{String, List, [], ◌∷◌, if◌then◌else◌, Option, none, some, not, map}
use terraform_operator.Utils.{list_contains_str}
use terraform_operator.Api.Task.{TaskName}
use terraform_operator.Api.Spec.{Volume, VolumeMount}

abbrev pub prohibited_names : List String
prohibited_names =
    "tfohome" ∷ "config-map-source" ∷ "main-module-addons" ∷ "gitaskpass" ∷ "ssh" ∷ []

abbrev pub mount_names : List VolumeMount → List String
mount_names mounts = map (λ m. m.name) mounts

abbrev pub volume_names : List Volume → List String
volume_names volumes = map (λ v. v.name) volumes

unfoldable pub misconfigured : TaskName → (before name after : String) → String
misconfigured task before name after = String.◌++◌ "task '" (
    String.◌++◌ task (
      String.◌++◌ "' is misconfigured: "
        (String.◌++◌ before (String.◌++◌ name (String.◌++◌ "'" after)))))

-- The first loop of `validateVolume`, over the volumes.
unfoldable pub check_volumes : TaskName → (mounts : List String) → List Volume → Option String
check_volumes task mounts [] = none
check_volumes task mounts (v ∷ volumes) =
    let rest = check_volumes task mounts volumes in
    if list_contains_str prohibited_names v.name
    then some (misconfigured task "volume name '" v.name " is reserved by tf-operator")
    else if not (list_contains_str mounts v.name)
    then some (misconfigured task "volume: '" v.name " doesn't have corresponding volumeMount")
    else rest

-- The second loop, over the mounts.
unfoldable pub check_mounts : TaskName → (volumes : List String) → List VolumeMount → Option String
check_mounts task volumes [] = none
check_mounts task volumes (m ∷ mounts) =
    let rest = check_mounts task volumes mounts in
    if not (list_contains_str volumes m.name)
    then some (misconfigured task "volumeMount: '" m.name " doesn't have corresponding volume")
    else rest

-- `validateVolume`: the error, if there is one.
unfoldable pub validate_volume : TaskName → List Volume → List VolumeMount → Option String
unfolding check_volumes check_mounts misconfigured
validate_volume task volumes mounts = elim (check_volumes task (mount_names mounts) volumes) [
  | some e ↦ some e
  | none ↦ check_mounts task (volume_names volumes) mounts
]
