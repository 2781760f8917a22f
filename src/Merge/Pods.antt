-- ===== src/Merge/Pods.antt =====
-- mergePodTemplate and mergeContainer. The loops run over copies of the containers, which share the
-- maps of the originals: a write into a map is seen in the original, an assignment of a new map is
-- not.
use gardener_resource_manage.Prelude.{
  String, Bool, true, false, ◌||◌, Option, none, some, List, [], ◌∷◌, map, ◌≡◌, refl, arith, inl,
  inr,
}
use gardener_resource_manage.Prelude.Lists.{Forall₂}
use gardener_resource_manage.Prelude.Tests.{Bool-cases, ◌==◌, string_eq, if◌then◌else◌}
use gardener_resource_manage.Prelude.Dict.{lookup, insert, or_else, is_some, lookup-insert}
use gardener_resource_manage.Objects.{entries, ResourceList, Container, PodTemplate}

-- corev1.ResourceCPU, corev1.ResourceMemory
unfoldable pub is_scaled_resource : String → Bool
is_scaled_resource name = name == "cpu" || name == "memory"

-- A loop of mergeContainer: a nil map of the new container is replaced before the first write.
unfoldable pub copy_resources : ResourceList → Option ResourceList → Option ResourceList
copy_resources [] new = new
copy_resources ((resource_name, quantity) ∷ old) new =
    let rest = copy_resources old new in
    if is_scaled_resource resource_name
    then some (insert resource_name quantity (entries rest))
    else rest

-- What the original shows of the writes through a map that its copy shares.
abbrev pub shared : Option ResourceList → Option ResourceList → Option ResourceList
shared none written = none
shared (some m) written = written

module _ {C : Type 0} where
  unfoldable pub merge_container : Container C → Container C → Bool → Container C
  unfolding copy_resources
  merge_container old new preserve_resources =
      if preserve_resources
      then record new {
        requests = copy_resources (entries old.requests) new.requests;
        limits = copy_resources (entries old.limits) new.limits;
      }
      else new

  -- The inner loop, over the old containers, on the copy of one new container.
  unfoldable pub merge_old_containers : List (Container C) → Container C → Container C
  unfolding merge_container
  merge_old_containers [] copy = copy
  merge_old_containers (old ∷ olds) copy =
      merge_old_containers olds
        (if copy.name == old.name then merge_container old copy true else copy)

  unfoldable pub written_back : Container C → Container C → Container C
  written_back original copy = record original {
    requests = shared original.requests copy.requests;
    limits = shared original.limits copy.limits;
  }

  unfoldable pub merge_pod_template : PodTemplate C → PodTemplate C → Bool → PodTemplate C
  unfolding merge_old_containers written_back
  merge_pod_template old_pod new_pod preserve_resources =
      if preserve_resources
      then record new_pod {
        containers =
            map (λ c. written_back c (merge_old_containers old_pod.containers c))
              new_pod.containers;
      }
      else new_pod

lookup-copy_resources :
    (name : String) (old : ResourceList) (new : Option ResourceList)
    → is_scaled_resource name ≡ true
    → lookup name (entries (copy_resources old new))
      ≡ or_else (lookup name old) (lookup name (entries new))
unfolding copy_resources lookup
lookup-copy_resources name [] new h = refl
lookup-copy_resources name ((n, q) ∷ old) new h = ground (
  arith,
  string_eq.beq_iff n name,
  lookup-insert n name q (entries (copy_resources old new)),
  lookup-copy_resources name old new h,
)

copy_resources_other :
    (name : String) (old : ResourceList) (new : Option ResourceList)
    → is_scaled_resource name ≡ false
    → lookup name (entries (copy_resources old new)) ≡ lookup name (entries new)
unfolding copy_resources lookup
copy_resources_other name [] new h = refl
copy_resources_other name ((n, q) ∷ old) new h = ground (
  arith,
  string_eq.beq_iff n name,
  lookup-insert n name q (entries (copy_resources old new)),
  copy_resources_other name old new h,
)

module _ {C : Type 0} where
  -- The last of the old containers with the name that has a request for the resource.
  abbrev pub old_request : String → String → List (Container C) → Option String
  old_request container name [] = none
  old_request container name (old ∷ olds) =
      or_else (old_request container name olds)
        (if container == old.name then lookup name (entries old.requests) else none)

  name-merge_container : (old new : Container C) → (merge_container old new true).name ≡ new.name
  unfolding merge_container
  name-merge_container old new = refl

  merge_old_containers_requests :
      (name : String) (olds : List (Container C)) (c : Container C)
      → is_scaled_resource name ≡ true
      → lookup name (entries (merge_old_containers olds c).requests)
        ≡ or_else (old_request c.name name olds) (lookup name (entries c.requests))
  unfolding merge_old_containers
  merge_old_containers_requests name [] c h = refl
  merge_old_containers_requests name (old ∷ olds) c h = elim (Bool-cases (c.name == old.name)) [
    | inl p ↦
        rw (p, merge_old_containers)
          (ground (
            arith,
            lookup-copy_resources name (entries old.requests) c.requests h,
            merge_old_containers_requests name olds (merge_container old c true) h,
          ))
    | inr p ↦
        rw (p, merge_old_containers) (ground (arith, merge_old_containers_requests name olds c h))
  ]

  written_back_requests :
      (name : String) (olds : List (Container C)) (c : Container C)
      → is_scaled_resource name ≡ true
      → lookup name (entries (written_back c (merge_old_containers olds c)).requests) ≡ (
          if is_some c.requests
          then or_else (old_request c.name name olds) (lookup name (entries c.requests))
          else none)
  unfolding written_back lookup
  written_back_requests name olds c h = ground (arith, merge_old_containers_requests name olds c h)

  -- What a container of the pod template became.
  abbrev pub KeepsRequests : List (Container C) → Container C → Container C → Type 0
  KeepsRequests olds c merged =
      (merged.name ≡ c.name)
      × ((name : String)
          → is_scaled_resource name ≡ true
          → lookup name (entries merged.requests) ≡ (
              if is_some c.requests
              then or_else (old_request c.name name olds) (lookup name (entries c.requests))
              else none))

  merged_KeepsRequests :
      (olds cs : List (Container C))
      → Forall₂ (KeepsRequests olds) cs (map (λ c. written_back c (merge_old_containers olds c)) cs)
  unfolding written_back
  merged_KeepsRequests olds [] = tt
  merged_KeepsRequests olds (c ∷ cs) =
      ((refl, λ name h. written_back_requests name olds c h), merged_KeepsRequests olds cs)

  -- With preserve_resources, the containers stay the same in number, order and names. One whose
  -- requests are set gets the CPU and memory requests that an old container of its name has (the
  -- last such one), and keeps its own where there is none; one whose requests are not set is left
  -- without CPU and memory requests, whatever the old container had.
  pub merge_pod_template_requests :
      (old_pod new_pod : PodTemplate C)
      → Forall₂
          (KeepsRequests old_pod.containers)
          new_pod.containers
          (merge_pod_template old_pod new_pod true).containers
  unfolding merge_pod_template
  merge_pod_template_requests old_pod new_pod =
      merged_KeepsRequests old_pod.containers new_pod.containers
