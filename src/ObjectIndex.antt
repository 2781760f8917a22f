-- ===== src/ObjectIndex.antt =====
-- pkg/controller/managedresource/objectindex.go: the objects of the last run, looked up by the
-- objects of this one. `found` collects the keys that were looked up with success.
use gardener_resource_manage.Prelude.{String, Bool, Option, none, some, List, [], ◌∷◌}
use gardener_resource_manage.Prelude.Tests.{string_eq}
use gardener_resource_manage.Prelude.Lists.{contains}
use gardener_resource_manage.Prelude.Dict.{Dict, lookup, insert}
use gardener_resource_manage.Api.Types.{ObjectReference}
use gardener_resource_manage.Keys.{object_key, object_key_by_reference, group_kind_of}
use gardener_resource_manage.Equivalences.{Equivalences, EquivalenceSet, get_equivalences_for}
pub mod Laws

pub record ObjectIndex : Type 0 where
  pub index : Dict String ObjectReference
  pub found : List String
  pub equivalences : Equivalences

unfoldable pub index_all :
    List ObjectReference → Dict String ObjectReference → Dict String ObjectReference
index_all [] index = index
index_all (r ∷ references) index = index_all references (insert (object_key_by_reference r) r index)

unfoldable pub new_object_index : List ObjectReference → Equivalences → ObjectIndex
unfolding index_all
new_object_index references equivalences = record {
  index = index_all references [];
  found = [];
  equivalences = equivalences;
}

-- Found(ref)
unfoldable pub is_found : ObjectIndex → ObjectReference → Bool
is_found i ref = contains (object_key_by_reference ref) i.found

-- The keys that Lookup tries, in turn: the reference's own, and those of its equivalents.
equivalent_keys : ObjectReference → EquivalenceSet → List String
equivalent_keys ref [] = []
equivalent_keys ref (gk ∷ gks) =
    object_key gk.group gk.kind ref.namespace ref.name ∷ equivalent_keys ref gks

unfoldable pub lookup_keys : ObjectIndex → ObjectReference → List String
unfolding equivalent_keys
lookup_keys i ref =
    object_key_by_reference ref
    ∷ equivalent_keys ref (get_equivalences_for i.equivalences (group_kind_of ref))

-- The first key that the index has is marked.
try_keys : ObjectIndex → List String → ObjectIndex × Option ObjectReference
try_keys i [] = (i, none)
try_keys i (key ∷ keys) = elim (lookup key i.index) [
  | some r ↦ (record i { found = key ∷ i.found }, some r)
  | none ↦ try_keys i keys
]

-- Lookup(ref); the second result is `none` where the code returns `false` with an empty reference.
unfoldable pub lookup_reference :
    ObjectIndex → ObjectReference → ObjectIndex × Option ObjectReference
unfolding try_keys lookup_keys
lookup_reference i ref = try_keys i (lookup_keys i ref)
