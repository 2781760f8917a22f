-- ===== src/Equivalences.antt =====
-- pkg/controller/managedresource/equivalences.go. An EquivalenceSet is a Go map, shared by all the
-- GroupKinds that it was entered for: an insertion through one is seen through all. So the sets
-- stand in a store, and the table maps a GroupKind to the place of its set.
use gardener_resource_manage.Prelude.{
  ℕ, suc, zero, String, Option, none, some, List, [], ◌∷◌, ◌++◌, map,
}
use gardener_resource_manage.Prelude.Tests.{if◌then◌else◌}
use gardener_resource_manage.Prelude.Lists.{length, contains}
use gardener_resource_manage.Prelude.Dict.{Dict, lookup, insert}
use gardener_resource_manage.Api.Types.{GroupKind, group_kind_eq}
pub mod Sharing
pub mod Partition

abbrev pub EquivalenceSet : Type 0
EquivalenceSet = List GroupKind

pub record Equivalences : Type 0 where
  pub sets : List EquivalenceSet
  pub table : Dict GroupKind ℕ

abbrev pub no_equivalences : Equivalences
no_equivalences = record { sets = []; table = [] }

-- s[gk] = struct{}{}
unfoldable pub set_insert : GroupKind → EquivalenceSet → EquivalenceSet
set_insert gk s = if contains gk s then s else s ++ gk ∷ []

-- newEquivalenceList(kind, groups...)
unfoldable pub new_equivalence_list : String → List String → List GroupKind
new_equivalence_list kind = map (λ g. record { group = g; kind = kind })

-- A write through the place of a shared set.
unfoldable pub update_at :
    ℕ → (EquivalenceSet → EquivalenceSet) → List EquivalenceSet → List EquivalenceSet
update_at i f [] = []
update_at zero f (s ∷ sets) = f s ∷ sets
update_at (suc i) f (s ∷ sets) = s ∷ update_at i f sets

unfoldable pub set_at : ℕ → List EquivalenceSet → EquivalenceSet
set_at i [] = []
set_at zero (s ∷ sets) = s
set_at (suc i) (s ∷ sets) = set_at i sets

-- The set of the first GroupKind that has one.
unfoldable pub existing_set : Dict GroupKind ℕ → List GroupKind → Option ℕ
existing_set table [] = none
existing_set table (gk ∷ gks) = elim (lookup gk table) [
  | some i ↦ some i
  | none ↦ existing_set table gks
]

-- The last loop of addEquivalentGroupKinds, over the set at place `m`.
unfoldable pub enter_all : ℕ → List GroupKind → Equivalences → Equivalences
enter_all m [] e = e
enter_all m (gk ∷ gks) e =
    enter_all m gks
      (record { sets = update_at m (set_insert gk) e.sets; table = insert gk m e.table })

unfoldable pub add_equivalent_group_kinds : Equivalences → List GroupKind → Equivalences
unfolding existing_set enter_all
add_equivalent_group_kinds e gks = elim (existing_set e.table gks) [
  | some m ↦ enter_all m gks e
  | none ↦ enter_all (length e.sets) gks (record e { sets = e.sets ++ [] ∷ [] })
]

unfoldable pub default_equivalences : List (List GroupKind)
unfolding new_equivalence_list
default_equivalences =
    new_equivalence_list "Deployment" ("extensions" ∷ "apps" ∷ [])
    ∷ new_equivalence_list "DaemonSet" ("extensions" ∷ "apps" ∷ [])
    ∷ new_equivalence_list "ReplicaSet" ("extensions" ∷ "apps" ∷ [])
    ∷ new_equivalence_list "StatefulSet" ("extensions" ∷ "apps" ∷ [])
    ∷ new_equivalence_list "Ingress" ("extensions" ∷ "networking.k8s.io" ∷ [])
    ∷ new_equivalence_list "NetworkPolicy" ("extensions" ∷ "networking.k8s.io" ∷ [])
    ∷ new_equivalence_list "PodSecurityPolicy" ("extensions" ∷ "policy" ∷ [])
    ∷ []

unfoldable pub add_all : Equivalences → List (List GroupKind) → Equivalences
unfolding add_equivalent_group_kinds
add_all e [] = e
add_all e (gks ∷ lists) = add_all (add_equivalent_group_kinds e gks) lists

unfoldable pub new_equivalences : List (List GroupKind) → Equivalences
unfolding add_all default_equivalences
new_equivalences additional = add_all (add_all no_equivalences default_equivalences) additional

-- A GroupKind without an entry has the nil set, which a loop takes as empty.
unfoldable pub get_equivalences_for : Equivalences → GroupKind → EquivalenceSet
unfolding set_at
get_equivalences_for e gk = elim (lookup gk e.table) [ some i ↦ set_at i e.sets | none ↦ [] ]
