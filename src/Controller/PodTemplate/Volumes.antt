-- ===== src/Controller/PodTemplate/Volumes.antt =====
-- Which volumes validateVolume lets pass, and what generatePod and generateJob make of them.
use terraform_operator.Prelude.{
  true, false, List, [], ◌∷◌, ◌≡◌, ◌↔◌, refl, arith, none, All, inl, inr, Option-cases,
}
use terraform_operator.Utils.{list_contains_str}
use terraform_operator.Api.Task.{TaskName}
use terraform_operator.Api.Spec.{Volume, VolumeMount}
use terraform_operator.Controller.PodTemplate.Validation.{
  prohibited_names, mount_names, volume_names, check_volumes, check_mounts, validate_volume,
}

-- A volume whose name is free and that some mount refers to.
abbrev pub IsUsable : List VolumeMount → Volume → Type 0
IsUsable mounts v =
    (list_contains_str prohibited_names v.name ≡ false)
    × (list_contains_str (mount_names mounts) v.name ≡ true)

-- A mount of one of the volumes.
abbrev pub IsMounted : List Volume → VolumeMount → Type 0
IsMounted volumes m = list_contains_str (volume_names volumes) m.name ≡ true

check_volumes_iff :
    (task : TaskName) (mounts : List VolumeMount) (volumes : List Volume)
    → (check_volumes task (mount_names mounts) volumes ≡ none) ↔ All (IsUsable mounts) volumes
unfolding check_volumes
check_volumes_iff task mounts [] = (λ h. tt, λ h. refl)
check_volumes_iff task mounts (v ∷ volumes) =
    let (sound, complete) = check_volumes_iff task mounts volumes in
    (
      λ h. ((ground arith, ground arith), sound (ground arith)),
      λ h. ground (arith, h.0.0, h.0.1, complete h.1),
    )

check_mounts_iff :
    (task : TaskName) (volumes : List Volume) (mounts : List VolumeMount)
    → (check_mounts task (volume_names volumes) mounts ≡ none) ↔ All (IsMounted volumes) mounts
unfolding check_mounts
check_mounts_iff task volumes [] = (λ h. tt, λ h. refl)
check_mounts_iff task volumes (m ∷ mounts) =
    let (sound, complete) = check_mounts_iff task volumes mounts in
    (λ h. (ground arith, sound (ground arith)), λ h. ground (arith, h.0, complete h.1))

-- `validateVolume` finds no error exactly if no volume has a reserved name, every volume has a
-- mount, and every mount has a volume.
pub validate_volume_iff :
    (task : TaskName) (volumes : List Volume) (mounts : List VolumeMount)
    → (validate_volume task volumes mounts ≡ none)
      ↔ (All (IsUsable mounts) volumes × All (IsMounted volumes) mounts)
unfolding validate_volume
validate_volume_iff task volumes mounts = (
  λ h. elim (Option-cases (check_volumes task (mount_names mounts) volumes)) [
    | inl e ↦ (
      (check_volumes_iff task mounts volumes).0 e,
      (check_mounts_iff task volumes mounts).0 (ground arith),
    )
    | inr (t, e) ↦ absurd (ground arith)
  ],
  λ h. ground (
    arith,
    (check_volumes_iff task mounts volumes).1 h.0,
    (check_mounts_iff task volumes mounts).1 h.1,
  ),
)
