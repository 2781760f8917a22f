-- ===== src/Merge/Maps.antt =====
-- mergeMapsBasedOnOldMap and mergeMaps, for labels and annotations.
use gardener_resource_manage.Prelude.{
  String, Bool, false, not, ◌&&◌, Option, none, some, [], ◌∷◌, ◌≡◌, refl, arith,
}
use gardener_resource_manage.Prelude.Tests.{◌==◌, string_eq, if◌then◌else◌}
use gardener_resource_manage.Prelude.Lists.{is_empty}
use gardener_resource_manage.Prelude.Dict.{
  lookup, delete, insert_all, is_some, or_else, lookup-insert_all, lookup-delete,
}
use gardener_resource_manage.Objects.{entries}
use gardener_resource_manage.Api.Types.{StringMap}

-- The current value is there and is the one that was once desired.
abbrev pub is_unchanged : Option String → String → Bool
is_unchanged none old_value = false
is_unchanged (some current_value) old_value = current_value == old_value

-- The last loop of mergeMapsBasedOnOldMap.
unfoldable pub remove_undesired : StringMap → StringMap → StringMap → StringMap → StringMap
remove_undesired desired current [] out = out
remove_undesired desired current ((k, old_value) ∷ old) out =
    let rest = remove_undesired desired current old out in
    if is_unchanged (lookup k current) old_value && not (is_some (lookup k desired))
    then delete k rest
    else rest

-- `none` is the nil map.
unfoldable pub merge_maps_based_on_old_map : StringMap → StringMap → StringMap → Option StringMap
unfolding remove_undesired
merge_maps_based_on_old_map desired current old =
    let out = remove_undesired desired current old (insert_all desired (insert_all current [])) in
    if is_empty out then none else some out

-- The second map takes precedence.
unfoldable pub merge_maps : StringMap → StringMap → StringMap
merge_maps one two = insert_all two (insert_all one [])

lookup_nil : (k : String) → lookup {V = String} k [] ≡ none
unfolding lookup
lookup_nil k = refl

pub lookup-merge_maps :
    (k : String) (one two : StringMap)
    → lookup k (merge_maps one two) ≡ or_else (lookup k two) (lookup k one)
unfolding merge_maps lookup
lookup-merge_maps k one two =
    ground (arith, lookup-insert_all k two (insert_all one []), lookup-insert_all k one [])

-- A Go map has each key once.
abbrev pub UniqueKeys : StringMap → Type 0
UniqueKeys [] = Unit
UniqueKeys ((k, v) ∷ m) = (lookup k m ≡ none) × UniqueKeys m

-- The value that was once desired is the current one.
abbrev pub is_stale : Option String → Option String → Bool
is_stale none current = false
is_stale (some old_value) current = is_unchanged current old_value

lookup-remove_undesired :
    (k : String) (desired current old out : StringMap)
    → UniqueKeys old
    → lookup k (remove_undesired desired current old out) ≡ (
        if is_stale (lookup k old) (lookup k current) && not (is_some (lookup k desired))
        then none
        else lookup k out)
unfolding remove_undesired lookup
lookup-remove_undesired k desired current [] out u = ground arith
lookup-remove_undesired k desired current ((j, v) ∷ old) out u = ground (
  arith,
  string_eq.beq_iff j k,
  lookup-delete j k (remove_undesired desired current old out),
  lookup-remove_undesired k desired current old out u.1,
)

entries_if_empty : (out : StringMap) → entries (if is_empty out then none else some out) ≡ out
unfolding is_empty
entries_if_empty [] = refl
entries_if_empty (x ∷ xs) = refl

-- mergeMapsBasedOnOldMap, key by key: a desired value wins; otherwise the current value stays, but
-- not if it is still the one that was desired the last time. The nil map is returned exactly for
-- the map with no entry. The old map has no key twice.
pub lookup-merge_maps_based_on_old_map :
    (k : String) (desired current old : StringMap)
    → UniqueKeys old
    → lookup k (entries (merge_maps_based_on_old_map desired current old))
      ≡ or_else
          (lookup k desired)
          (if is_stale (lookup k old) (lookup k current) then none else lookup k current)
unfolding merge_maps_based_on_old_map
lookup-merge_maps_based_on_old_map k desired current old u =
    let base = insert_all desired (insert_all current []) in
    rw (entries_if_empty (remove_undesired desired current old base)) (
      ground (
        arith,
        lookup-remove_undesired k desired current old base u,
        lookup-insert_all k desired (insert_all current []),
        lookup-insert_all k current [],
        lookup_nil k,
      ))

-- A second merge of the same desired values, now against the merged map and with the desired map as
-- the old one, changes no value: the object has settled. These two maps have no key twice.
pub merge_maps_based_on_old_map_settles :
    (k : String) (desired current old : StringMap)
    → UniqueKeys old
    → UniqueKeys desired
    → lookup k (
        entries (
          merge_maps_based_on_old_map desired
            (entries (merge_maps_based_on_old_map desired current old))
            desired))
      ≡ lookup k (entries (merge_maps_based_on_old_map desired current old))
merge_maps_based_on_old_map_settles k desired current old u v =
    let merged = entries (merge_maps_based_on_old_map desired current old) in
    ground (
      arith,
      lookup-merge_maps_based_on_old_map k desired current old u,
      lookup-merge_maps_based_on_old_map k desired merged desired v,
    )
