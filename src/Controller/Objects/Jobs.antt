-- ===== src/Controller/Objects/Jobs.antt =====
-- When a job has a pod to be made of.
use terraform_operator.Prelude.{◌≡◌, ◌≢◌, ◌↔◌, arith, none, All, Option-cases, inl, inr}
use terraform_operator.Controller.Options.{TaskOptions}
use terraform_operator.Controller.PodTemplate.{generate_pod, validate_volume}
use terraform_operator.Controller.PodTemplate.Volumes.{IsUsable, IsMounted, validate_volume_iff}
use terraform_operator.Controller.Objects.{generate_job}

some_job :
    (r : TaskOptions)
    → validate_volume r.task r.volumes r.volume_mounts ≡ none
    → generate_job r ≢ none
unfolding generate_job generate_pod
some_job r h q = ground arith

no_job :
    (r : TaskOptions)
    → validate_volume r.task r.volumes r.volume_mounts ≢ none
    → generate_job r ≡ none
unfolding generate_job generate_pod
no_job r h = elim (Option-cases (validate_volume r.task r.volumes r.volume_mounts)) [
  | inl e ↦ absurd (h e)
  | inr (t, e) ↦ ground arith
]

-- `generateJob` reads the pod that `generatePod` did not make, and panics, exactly if the volumes
-- of the task are misconfigured: the error that names the mistake is lost.
pub generate_job_panic :
    (r : TaskOptions)
    → (generate_job r ≡ none)
      ↔ ¬ (All (IsUsable r.volume_mounts) r.volumes × All (IsMounted r.volumes) r.volume_mounts)
generate_job_panic r =
    let valid = validate_volume_iff r.task r.volumes r.volume_mounts in
    (λ q v. some_job r (valid.1 v) q, λ n. no_job r (λ e. n (valid.0 e)))
