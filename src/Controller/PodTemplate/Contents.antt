-- ===== src/Controller/PodTemplate/Contents.antt =====
-- What the generated pod holds.
use terraform_operator.Prelude.{
  none, All, All-append, Bool-cases, Option-cases, inl, inr, subst, refl, ap, eq_iff, ap₂, List, [],
  ◌∷◌, ◌++◌, ◌≡◌, ◌∙◌, sym, arith, append_assoc, append-nil,
}
use terraform_operator.Prelude.Orders.{All-imp}
use terraform_operator.Controller.Options.{TaskOptions}
use terraform_operator.Utils.{list_contains_str}
use terraform_operator.Api.Spec.{Volume, VolumeMount}
use terraform_operator.Cluster.{Pod, Container}
use terraform_operator.Controller.PodTemplate.Validation.{validate_volume, volume_names}
use terraform_operator.Controller.PodTemplate.Env.{home}
use terraform_operator.Controller.PodTemplate.Mounts.{
  pod_volume_mounts, pod_volumes, has_config_map_source, home_volume, source_volumes,
  system_volumes, mount, source_mounts, system_mounts,
}
use terraform_operator.Controller.PodTemplate.Template.{
  generated, task_container, generate_pod, pod_of, add_sidecars, new_volumes,
}
use terraform_operator.Controller.PodTemplate.Volumes.{validate_volume_iff, IsMounted}

-- Adding sidecars leaves the containers and the volumes before them alone.
add_sidecars_extend :
    (sidecars : List Pod) (containers : List Container) (volumes : List Volume)
    → (more : List Container) × (others : List Volume) × (add_sidecars sidecars containers volumes
        ≡ (containers ++ more, volumes ++ others))
unfolding add_sidecars
add_sidecars_extend [] containers volumes =
    ([], [], ap₂ (λ c v. (c, v)) (sym (append-nil containers)) (sym (append-nil volumes)))
add_sidecars_extend (s ∷ sidecars) containers volumes =
    let fresh = new_volumes (volume_names volumes) s.spec.volumes in
    let (more, others, e) =
      add_sidecars_extend sidecars (containers ++ s.spec.containers) (volumes ++ fresh) in
    (
      s.spec.containers ++ more,
      fresh ++ others,
      e
          ∙ ap₂ (λ c v. (c, v)) (append_assoc containers s.spec.containers more)
              (append_assoc volumes fresh others),
    )

IsMounted-before :
    (volumes others : List Volume) (m : VolumeMount)
    → IsMounted volumes m
    → IsMounted (volumes ++ others) m
unfolding list_contains_str
IsMounted-before [] others m h = absurd (ground arith)
IsMounted-before (v ∷ volumes) others m h = ground (arith, IsMounted-before volumes others m)

IsMounted-after :
    (volumes others : List Volume) (m : VolumeMount)
    → IsMounted others m
    → IsMounted (volumes ++ others) m
unfolding list_contains_str
IsMounted-after [] others m h = h
IsMounted-after (v ∷ volumes) others m h = ground (arith, IsMounted-after volumes others m h)

mounts_resolve :
    (v : Volume) (given source system : List Volume) (m : VolumeMount)
    (given_mounts source_mounts' system_mounts' : List VolumeMount)
    → v.name ≡ m.name
    → All (IsMounted given) given_mounts
    → All (IsMounted source) source_mounts'
    → All (IsMounted system) system_mounts'
    → All
        (IsMounted (v ∷ (given ++ (source ++ system))))
        (m ∷ (given_mounts ++ (source_mounts' ++ system_mounts')))
unfolding list_contains_str
mounts_resolve v given source system m gm sm ym e hg hs hy = (
  ground (arith, eq_iff v.name m.name),
  All-append (IsMounted all_volumes) gm (sm ++ ym)
      (All-imp
        (λ n h.
          IsMounted-after (v ∷ []) (given ++ (source ++ system)) n
            (IsMounted-before given (source ++ system) n h))
        gm hg)
      (All-append (IsMounted all_volumes) sm ym
        (All-imp
          (λ n h.
            IsMounted-after (v ∷ []) (given ++ (source ++ system)) n
              (IsMounted-after given (source ++ system) n (IsMounted-before source system n h)))
          sm hs)
        (All-imp
          (λ n h.
            IsMounted-after (v ∷ []) (given ++ (source ++ system)) n
              (IsMounted-after given (source ++ system) n (IsMounted-after source system n h)))
          ym hy)),
)
  where
    all_volumes : List Volume
    all_volumes = v ∷ (given ++ (source ++ system))

sources_resolve : (r : TaskOptions) → All (IsMounted (source_volumes r)) (source_mounts r)
unfolding list_contains_str
sources_resolve r = elim (Bool-cases (has_config_map_source r)) [
  | inl e ↦ rw e (refl, tt)
  | inr e ↦ rw e tt
]

system_resolve : (r : TaskOptions) → All (IsMounted (system_volumes r)) system_mounts
unfolding list_contains_str
system_resolve r = (refl, (refl, (refl, tt)))

valid-generated :
    (r : TaskOptions) (p : Pod)
    → generate_pod r ≡ generated p
    → (validate_volume r.task r.volumes r.volume_mounts ≡ none) × (p ≡ pod_of r)
unfolding generate_pod
valid-generated r p h = elim (Option-cases (validate_volume r.task r.volumes r.volume_mounts)) [
  | inl e ↦ (e, ground arith)
  | inr (t, e) ↦ absurd (ground arith)
]

-- A generated pod runs the task's container first, and each mount of that container is of one of
-- the pod's volumes, also where sidecars bring volumes of their own.
pub generate_pod_mounts :
    (r : TaskOptions) (p : Pod)
    → generate_pod r ≡ generated p
    → (more : List Container) × (p.spec.containers ≡ task_container r ∷ more)
      × All (IsMounted p.spec.volumes) (task_container r).volume_mounts
unfolding pod_of task_container pod_volumes pod_volume_mounts
generate_pod_mounts r p h =
    let (valid, same) = valid-generated r p h in
    let given = ((validate_volume_iff r.task r.volumes r.volume_mounts).0 valid).1 in
    let (more, others, e) =
      add_sidecars_extend r.sidecar_plugins (task_container r ∷ []) (pod_volumes r) in
    let own =
      mounts_resolve (home_volume r) r.volumes (source_volumes r) (system_volumes r)
        (mount "tfohome" home) r.volume_mounts (source_mounts r) system_mounts refl given
        (sources_resolve r) (system_resolve r) in
    (
      more,
      ap (λ (q : Pod). q.spec.containers) same ∙ ap (λ (x : List Container × List Volume). x.0) e,
      subst (λ vs. All (IsMounted vs) (pod_volume_mounts r))
          (sym (
            ap (λ (q : Pod). q.spec.volumes) same
            ∙ ap (λ (x : List Container × List Volume). x.1) e))
          (All-imp (λ m k. IsMounted-before (pod_volumes r) others m k) (pod_volume_mounts r) own),
    )
