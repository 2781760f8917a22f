-- ===== src/Equivalences/Sharing.antt =====
-- The store of sets under writes, and what a list of equivalent GroupKinds gives to its members.
use gardener_resource_manage.Prelude.{
  ℕ, zero, suc, ◌<◌, true, ◌||◌, none, some, List, [], ◌∷◌, ◌++◌, ◌≡◌, ◌⊎◌, inl, inr, refl, arith,
  ap,
}
use gardener_resource_manage.Prelude.Tests.{◌==◌, nat_eq, if◌then◌else◌, Option-cases}
use gardener_resource_manage.Prelude.Lists.{length, length-append, contains, contains-append}
use gardener_resource_manage.Prelude.Dict.{lookup, insert, lookup-insert}
use gardener_resource_manage.Api.Types.{GroupKind, group_kind_eq}
use gardener_resource_manage.Equivalences.{
  EquivalenceSet, Equivalences, set_insert, update_at, set_at, existing_set, enter_all,
  add_equivalent_group_kinds, get_equivalences_for,
}

contains_singleton : (gk j : GroupKind) → contains j (gk ∷ []) ≡ gk == j
unfolding contains
contains_singleton gk j = ground arith

pub contains-set_insert :
    (gk j : GroupKind) (s : EquivalenceSet)
    → contains j (set_insert gk s) ≡ (gk == j || contains j s)
unfolding set_insert
contains-set_insert gk j s =
    ground
      (arith, group_kind_eq.beq_iff gk j, contains-append j s (gk ∷ []), contains_singleton gk j)

pub set_at-update_at :
    (i m : ℕ) (f : EquivalenceSet → EquivalenceSet) (sets : List EquivalenceSet)
    → m < length sets
    → set_at i (update_at m f sets) ≡ (if m == i then f (set_at m sets) else set_at i sets)
unfolding set_at update_at
set_at-update_at i m f [] h = elim h [ ]
set_at-update_at zero zero f (s ∷ sets) h = refl
set_at-update_at zero (suc m) f (s ∷ sets) h = ground arith
set_at-update_at (suc i) zero f (s ∷ sets) h = ground arith
set_at-update_at (suc i) (suc m) f (s ∷ sets) h = ground (arith, set_at-update_at i m f sets)

pub length-update_at :
    (m : ℕ) (f : EquivalenceSet → EquivalenceSet) (sets : List EquivalenceSet)
    → length (update_at m f sets) ≡ length sets
unfolding update_at
length-update_at m f [] = refl
length-update_at zero f (s ∷ sets) = refl
length-update_at (suc m) f (s ∷ sets) = ap suc (length-update_at m f sets)

pub set_at-append_empty :
    (i : ℕ) (sets : List EquivalenceSet) → set_at i (sets ++ [] ∷ []) ≡ set_at i sets
unfolding set_at
set_at-append_empty zero [] = refl
set_at-append_empty (suc i) [] = refl
set_at-append_empty zero (s ∷ sets) = refl
set_at-append_empty (suc i) (s ∷ sets) = set_at-append_empty i sets

-- Every place in the table is that of a set.
abbrev pub InRange : Equivalences → Type 0
InRange e = (gk : GroupKind) (i : ℕ) → lookup gk e.table ≡ some i → i < length e.sets

abbrev pub enter : ℕ → GroupKind → Equivalences → Equivalences
enter m gk e = record { sets = update_at m (set_insert gk) e.sets; table = insert gk m e.table }

pub enter-InRange :
    (m : ℕ) (gk : GroupKind) (e : Equivalences)
    → m < length e.sets
    → InRange e
    → InRange (enter m gk e)
enter-InRange m gk e h r j i p =
    ground (arith, lookup-insert gk j m e.table, length-update_at m (set_insert gk) e.sets, r j i)

-- What a member of the list has in the end: the place `m`, and all members in the set there.
pub enter_all_lem :
    (m : ℕ) (gks : List GroupKind) (e : Equivalences) (j : GroupKind)
    → m < length e.sets
    → (lookup j (enter_all m gks e).table ≡ (if contains j gks then some m else lookup j e.table))
      × (contains j (set_at m (enter_all m gks e).sets)
          ≡ (contains j gks || contains j (set_at m e.sets)))
unfolding enter_all contains
enter_all_lem m [] e j h = ground arith
enter_all_lem m (gk ∷ gks) e j h = ground (
  arith,
  group_kind_eq.beq_iff gk j,
  lookup-insert gk j m e.table,
  set_at-update_at m m (set_insert gk) e.sets h,
  contains-set_insert gk j (set_at m e.sets),
  length-update_at m (set_insert gk) e.sets,
  enter_all_lem m gks (enter m gk e) j,
)

existing_set-lt :
    (e : Equivalences) (gks : List GroupKind) (m : ℕ)
    → InRange e
    → existing_set e.table gks ≡ some m
    → m < length e.sets
unfolding existing_set
existing_set-lt e [] m r h = cc
existing_set-lt e (gk ∷ gks) m r h = elim (Option-cases (lookup gk e.table)) [
  | inl p ↦ existing_set-lt e gks m r (ground arith)
  | inr (i, p) ↦ r gk m (ground arith)
]

-- Both branches of an addition are the entering of all members at a place that is in range.
abbrev pub Entered : Equivalences → List GroupKind → Type 0
Entered e gks =
    (m : ℕ) × (e' : Equivalences) × (m < length e'.sets)
    × (e'.table ≡ e.table)
    × ((i : ℕ) → set_at i e'.sets ≡ set_at i e.sets)
    × (add_equivalent_group_kinds e gks ≡ enter_all m gks e')
    × ((existing_set e.table gks ≡ some m)
        ⊎ (existing_set e.table gks ≡ none) × (set_at m e.sets ≡ []))

set_at-length : (sets : List EquivalenceSet) → set_at (length sets) sets ≡ []
unfolding set_at
set_at-length [] = refl
set_at-length (s ∷ sets) = set_at-length sets

pub add_equivalent_group_kinds-Entered :
    (e : Equivalences) (gks : List GroupKind) → InRange e → Entered e gks
unfolding add_equivalent_group_kinds
add_equivalent_group_kinds-Entered e gks r = elim (Option-cases (existing_set e.table gks)) [
  | inr (m, p) ↦ (
    m,
    e,
    existing_set-lt e gks m r p,
    refl,
    λ i. refl,
    rw (p, add_equivalent_group_kinds),
    inl p,
  )
  | inl p ↦ (
    length e.sets,
    record e { sets = e.sets ++ [] ∷ [] },
    omega (arith, length-append e.sets ([] ∷ [])),
    refl,
    λ i. set_at-append_empty i e.sets,
    rw (p, add_equivalent_group_kinds),
    inr (p, set_at-length e.sets),
  )
]

-- After a list of equivalent GroupKinds is added, any two of them share one set, which holds both.
-- The table must be in range before.
pub shared_set :
    (e : Equivalences) (gks : List GroupKind) (a b : GroupKind)
    → InRange e
    → contains a gks ≡ true
    → contains b gks ≡ true
    → (get_equivalences_for (add_equivalent_group_kinds e gks) a
        ≡ get_equivalences_for (add_equivalent_group_kinds e gks) b)
      × (contains b (get_equivalences_for (add_equivalent_group_kinds e gks) a) ≡ true)
unfolding get_equivalences_for
shared_set e gks a b r ha hb =
    let (m, e', h, _, _, p, _) = add_equivalent_group_kinds-Entered e gks r in
    rw p (ground (arith, enter_all_lem m gks e' a h, enter_all_lem m gks e' b h))
