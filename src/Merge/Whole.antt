-- ===== src/Merge/Whole.antt =====
-- merge: metadata, status and content for every kind, then the rule of the kind.
use gardener_resource_manage.Prelude.{String, Bool, ◌||◌, Option, none, some, ◌≡◌, refl, arith}
use gardener_resource_manage.Prelude.Tests.{◌==◌, string_eq, if◌then◌else◌}
use gardener_resource_manage.Prelude.Dict.{lookup, insert, or_else, lookup-insert}
use gardener_resource_manage.Errors.{Result, ok}
use gardener_resource_manage.Api.Types.{StringMap, GroupKind, group_kind_eq}
use gardener_resource_manage.Objects.{
  entries, Unstructured, Scheme, group_kind, get_labels, get_annotations, set_labels,
  set_annotations, metadata_of,
}
use gardener_resource_manage.Merge.Maps.{
  merge_maps_based_on_old_map, lookup-merge_maps_based_on_old_map, is_stale, UniqueKeys,
}
use gardener_resource_manage.Merge.Kinds.{
  merge_deployment, merge_job, merge_stateful_set, merge_service_account,
}
use gardener_resource_manage.Merge.Services.{merge_service}

abbrev pub description_annotation : String
description_annotation = "resources.gardener.cloud/description"

abbrev pub description_annotation_text : String
description_annotation_text =
    "DO NOT EDIT - This resource is managed by gardener-resource-manager.\nAny modifications are discarded and the resource is returned to the original state."

abbrev pub origin_annotation : String
origin_annotation = "resources.gardener.cloud/origin"

abbrev pub gk : String → String → GroupKind
gk group kind = record { group = group; kind = kind }

-- The labels or annotations that the merged object gets, before those of the manager itself.
unfoldable pub merged_map :
    Bool → Option StringMap → Option StringMap → StringMap → Option StringMap
merged_map force_overwrite desired current existing =
    if force_overwrite
    then desired
    else merge_maps_based_on_old_map (entries desired) (entries current) existing

module _ {C : Type 0} where
  -- The object after the steps that all kinds share.
  unfoldable pub merge_base :
      String
      → Unstructured C
      → Unstructured C
      → Bool
      → StringMap
      → Bool
      → StringMap
      → Unstructured C
  unfolding merged_map
  merge_base origin desired current force_labels existing_labels force_annotations
        existing_annotations =
      let kept : Unstructured C = elim current.metadata [
        | some m ↦ record desired { metadata = some m }
        | none ↦ desired
      ] in
      let labels =
        merged_map force_labels (get_labels desired) (get_labels current) existing_labels in
      let ann =
        merged_map force_annotations (get_annotations desired) (get_annotations current)
          existing_annotations in
      let marked =
        insert origin_annotation origin
          (insert description_annotation description_annotation_text (entries ann)) in
      record (set_annotations (some marked) (set_labels labels kept)) { status = current.status }

  -- The old object as the rules of the kinds see it: its metadata is the map that the new object
  -- has taken over and written to.
  unfoldable pub shared_metadata : Unstructured C → Unstructured C → Unstructured C
  shared_metadata old new = elim old.metadata [
    | some m ↦ record old { metadata = new.metadata }
    | none ↦ old
  ]

module _ {C : Type 0} (scheme : Scheme C) where
  unfoldable pub merge_by_kind :
      Unstructured C → Unstructured C → Bool → Bool → Result (Unstructured C)
  unfolding merge_deployment merge_job merge_stateful_set merge_service merge_service_account
  merge_by_kind old new preserve_replicas preserve_resources =
      let k = group_kind new in
      if k == gk "apps" "Deployment" || k == gk "extensions" "Deployment"
      then merge_deployment scheme old new preserve_replicas preserve_resources
      else if k == gk "batch" "Job"
      then merge_job scheme old new
      else if k == gk "apps" "StatefulSet" || k == gk "extensions" "StatefulSet"
      then merge_stateful_set scheme old new preserve_replicas preserve_resources
      else if k == gk "" "Service"
      then merge_service scheme old new
      else if k == gk "" "ServiceAccount"
      then merge_service_account scheme old new
      else ok new

  unfoldable pub merge :
      String
      → Unstructured C
      → Unstructured C
      → Bool
      → StringMap
      → Bool
      → StringMap
      → Bool
      → Bool
      → Result (Unstructured C)
  unfolding merge_base shared_metadata merge_by_kind
  merge origin desired current fl existing_labels fa existing_annotations preserve_replicas
        preserve_resources =
      let new = merge_base origin desired current fl existing_labels fa existing_annotations in
      merge_by_kind (shared_metadata current new) new preserve_replicas preserve_resources

module _ {C : Type 0} (origin : String) (desired current : Unstructured C) (fl fa : Bool)
    (el ea : StringMap) where
  abbrev merged : Unstructured C
  merged = merge_base origin desired current fl el fa ea

  -- The merged object has the kind and content of the desired one and the status of the current
  -- one. If the current object has metadata, then its name, namespace and all metadata besides
  -- labels and annotations are kept; otherwise those of the desired object are taken.
  pub merge_base_frame :
      (merged.gvk ≡ desired.gvk)
      × (merged.content ≡ desired.content)
      × (merged.status ≡ current.status)
      × ((metadata_of merged).rest
          ≡ (elim current.metadata [ some m ↦ m.rest | none ↦ (metadata_of desired).rest ]))
      × ((metadata_of merged).name
          ≡ (elim current.metadata [ some m ↦ m.name | none ↦ (metadata_of desired).name ]))
      × ((metadata_of merged).namespace ≡ (elim current.metadata [
        | some m ↦ m.namespace
        | none ↦ (metadata_of desired).namespace
      ]))
  unfolding merge_base
  merge_base_frame = (ground arith, ground arith, refl, ground arith, ground arith, ground arith)

  -- Every merged object carries its origin and the description, and every other annotation is that
  -- of the merge of the annotations.
  pub annotations-merge_base :
      (k : String)
      → lookup k (entries (get_annotations merged)) ≡ (
          if origin_annotation == k
          then some origin
          else if description_annotation == k
          then some description_annotation_text
          else lookup k
              (entries (merged_map fa (get_annotations desired) (get_annotations current) ea)))
  unfolding merge_base
  annotations-merge_base k =
      let ann = entries (merged_map fa (get_annotations desired) (get_annotations current) ea) in
      ground (
        arith,
        lookup-insert origin_annotation k origin
            (insert description_annotation description_annotation_text ann),
        lookup-insert description_annotation k description_annotation_text ann,
      )

  -- The labels are those of the desired object alone if they are forced; otherwise a desired value
  -- wins, and another current label stays unless it has the value that was desired the last time.
  pub labels-merge_base :
      (k : String)
      → UniqueKeys el
      → lookup k (entries (get_labels merged)) ≡ (
          if fl
          then lookup k (entries (get_labels desired))
          else or_else (lookup k (entries (get_labels desired))) (
              if is_stale (lookup k el) (lookup k (entries (get_labels current)))
              then none
              else lookup k (entries (get_labels current))))
  unfolding merge_base merged_map
  labels-merge_base k u = ground (
    arith,
    lookup-merge_maps_based_on_old_map k (entries (get_labels desired))
        (entries (get_labels current)) el u,
  )
