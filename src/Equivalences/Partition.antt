-- ===== src/Equivalences/Partition.antt =====
-- Where the lists do not bridge two sets, the sets are the classes of an equivalence. Where one
-- does, it breaks the symmetry of the relation.
use native.Mathlib.Decide.{dec_lt}
use gardener_resource_manage.Prelude.{
  ℕ, zero, suc, ◌<◌, ◌≤◌, true, false, some, none, List, [], ◌∷◌, ◌≡◌, ◌≢◌, ◌↔◌, ◌⊎◌, inl, inr,
  refl, arith,
}
use gardener_resource_manage.Prelude.Tests.{nat_eq, nat_beq_iff, Option-cases}
use gardener_resource_manage.Prelude.Lists.{length, contains, All}
use gardener_resource_manage.Prelude.Dict.{Dict, lookup, insert, lookup-insert}
use gardener_resource_manage.Api.Types.{GroupKind, group_kind_beq, group_kind_eq}
use gardener_resource_manage.Equivalences.{
  Equivalences, no_equivalences, set_insert, set_at, existing_set, enter_all, add_all,
  add_equivalent_group_kinds, get_equivalences_for, new_equivalences, default_equivalences,
}
use gardener_resource_manage.Equivalences.Sharing.{
  InRange, enter, add_equivalent_group_kinds-Entered, enter_all_lem, contains-set_insert,
  set_at-update_at, length-update_at,
}

-- A GroupKind stands in the set at its place, and in no other.
abbrev pub IsPartition : Equivalences → Type 0
IsPartition e =
    (gk : GroupKind) (i : ℕ) → (lookup gk e.table ≡ some i) ↔ (contains gk (set_at i e.sets) ≡ true)

-- All members of a list that have a set have the one at `m`.
abbrev pub AllAt : Dict GroupKind ℕ → ℕ → List GroupKind → Type 0
AllAt table m = All (λ gk. (lookup gk table ≡ none) ⊎ (lookup gk table ≡ some m))

set_at_out_of_range : (i : ℕ) (sets : List (List GroupKind)) → length sets ≤ i → set_at i sets ≡ []
unfolding set_at
set_at_out_of_range i [] h = refl
set_at_out_of_range zero (s ∷ sets) h = elim h [ ]
set_at_out_of_range (suc i) (s ∷ sets) h = set_at_out_of_range i sets (omega arith)

pub IsPartition-InRange : (e : Equivalences) → IsPartition e → InRange e
unfolding contains
IsPartition-InRange e h gk i p = elim (dec_lt i (length e.sets)) [
  | yes q ↦ q
  | no q ↦ absurd (ground (arith, h gk i, set_at_out_of_range i e.sets (omega arith)))
]

enter-IsPartition :
    (m : ℕ) (gk : GroupKind) (e : Equivalences)
    → m < length e.sets
    → (lookup gk e.table ≡ none) ⊎ (lookup gk e.table ≡ some m)
    → IsPartition e
    → IsPartition (enter m gk e)
enter-IsPartition m gk e h at p j i = ground (
  arith,
  group_kind_eq.beq_iff gk j,
  nat_beq_iff m i,
  lookup-insert gk j m e.table,
  set_at-update_at i m (set_insert gk) e.sets h,
  contains-set_insert gk j (set_at m e.sets),
  p j i,
)

enter-AllAt :
    (m : ℕ) (gk : GroupKind) (e : Equivalences) (gks : List GroupKind)
    → AllAt e.table m gks
    → AllAt (enter m gk e).table m gks
enter-AllAt m gk e [] h = tt
enter-AllAt m gk e (j ∷ gks) h =
    ground (arith, lookup-insert gk j m e.table, enter-AllAt m gk e gks h.1)

enter_all-IsPartition :
    (m : ℕ) (gks : List GroupKind) (e : Equivalences)
    → m < length e.sets
    → AllAt e.table m gks
    → IsPartition e
    → IsPartition (enter_all m gks e)
unfolding enter_all
enter_all-IsPartition m [] e h at p = p
enter_all-IsPartition m (gk ∷ gks) e h at p =
    enter_all-IsPartition m gks (enter m gk e)
      (omega (arith, length-update_at m (set_insert gk) e.sets)) (enter-AllAt m gk e gks at.1)
      (enter-IsPartition m gk e h at.0 p)

none-AllAt :
    (table : Dict GroupKind ℕ) (m : ℕ) (gks : List GroupKind)
    → existing_set table gks ≡ none
    → AllAt table m gks
unfolding existing_set
none-AllAt table m [] h = tt
none-AllAt table m (gk ∷ gks) h = ground (arith, none-AllAt table m gks)

-- The members of a list that already have a set all have the same one.
abbrev pub IsCompatible : Equivalences → List GroupKind → Type 0
IsCompatible e gks = (m : ℕ) → existing_set e.table gks ≡ some m → AllAt e.table m gks

-- Adding a list whose members do not already stand in different sets keeps the partition: every
-- GroupKind stands in the set that it is looked up in, and in no other.
pub add_equivalent_group_kinds-IsPartition :
    (e : Equivalences) (gks : List GroupKind)
    → IsPartition e
    → IsCompatible e gks
    → IsPartition (add_equivalent_group_kinds e gks)
add_equivalent_group_kinds-IsPartition e gks p c =
    let (m, e', h, t, s, q, was) =
      add_equivalent_group_kinds-Entered e gks (IsPartition-InRange e p) in
    rw q (
      enter_all-IsPartition m gks e' h
        (rw t (elim was [ inl old ↦ c m old | inr new ↦ none-AllAt e.table m gks new.0 ]))
        (λ gk i. rw (t, s i) (p gk i)))

-- In a partition the relation is an equivalence: whatever stands in the set of `a` has that set.
pub get_equivalences_for-eq :
    (e : Equivalences) (a b : GroupKind)
    → IsPartition e
    → contains b (get_equivalences_for e a) ≡ true
    → get_equivalences_for e b ≡ get_equivalences_for e a
unfolding get_equivalences_for contains
get_equivalences_for-eq e a b p h = elim (Option-cases (lookup a e.table)) [
  | inl q ↦ ground arith
  | inr (i, q) ↦ ground (arith, p b i)
]

pub IsPartition-no_equivalences : IsPartition no_equivalences
unfolding lookup set_at contains
IsPartition-no_equivalences gk i = (λ h. cc, λ h. cc)

-- Each list is compatible with what the lists before it have built.
abbrev pub AllCompatible : Equivalences → List (List GroupKind) → Type 0
AllCompatible e [] = Unit
AllCompatible e (gks ∷ lists) =
    IsCompatible e gks × AllCompatible (add_equivalent_group_kinds e gks) lists

add_all-IsPartition :
    (e : Equivalences) (lists : List (List GroupKind))
    → IsPartition e
    → AllCompatible e lists
    → IsPartition (add_all e lists)
unfolding add_all
add_all-IsPartition e [] p c = p
add_all-IsPartition e (gks ∷ lists) p c =
    add_all-IsPartition (add_equivalent_group_kinds e gks) lists
      (add_equivalent_group_kinds-IsPartition e gks p c.0) c.1

default_equivalences-AllCompatible : AllCompatible no_equivalences default_equivalences
unfolding default_equivalences add_all existing_set lookup insert add_equivalent_group_kinds
    group_kind_beq
default_equivalences-AllCompatible =
    (λ m h. cc, (λ m h. cc, (λ m h. cc, (λ m h. cc, (λ m h. cc, (λ m h. cc, (λ m h. cc, tt)))))))

-- The default equivalences with additional lists that bridge no two sets form a partition.
pub new_equivalences-IsPartition :
    (additional : List (List GroupKind))
    → AllCompatible (new_equivalences []) additional
    → IsPartition (new_equivalences additional)
unfolding new_equivalences
new_equivalences-IsPartition additional c =
    add_all-IsPartition (add_all no_equivalences default_equivalences) additional
      (add_all-IsPartition no_equivalences default_equivalences IsPartition-no_equivalences
        default_equivalences-AllCompatible)
      c

set_at-enter_all_ne :
    (m i : ℕ) (gks : List GroupKind) (e : Equivalences)
    → m < length e.sets
    → m ≢ i
    → set_at i (enter_all m gks e).sets ≡ set_at i e.sets
unfolding enter_all
set_at-enter_all_ne m i [] e h n = refl
set_at-enter_all_ne m i (gk ∷ gks) e h n = ground (
  arith,
  nat_beq_iff m i,
  set_at-update_at i m (set_insert gk) e.sets h,
  length-update_at m (set_insert gk) e.sets,
  set_at-enter_all_ne m i gks (enter m gk e),
)

add-eq-enter_all :
    (e : Equivalences) (a : GroupKind) (gks : List GroupKind) (i : ℕ)
    → lookup a e.table ≡ some i
    → add_equivalent_group_kinds e (a ∷ gks) ≡ enter_all i (a ∷ gks) e
unfolding add_equivalent_group_kinds existing_set
add-eq-enter_all e a gks i h = rw (h, add_equivalent_group_kinds, existing_set)

-- A list that bridges two sets is not merged with them: from a partition, after the list `a, b` is
-- added with `a` and `b` in two different sets, every other member `c` of `b`'s old set still has
-- `b` among its equivalents, but `b` no longer has `c`.
pub bridge_asymmetric :
    (e : Equivalences) (a b c : GroupKind) (i j : ℕ)
    → IsPartition e
    → lookup a e.table ≡ some i
    → lookup b e.table ≡ some j
    → lookup c e.table ≡ some j
    → i ≢ j
    → c ≢ b
    → (contains b (get_equivalences_for (add_equivalent_group_kinds e (a ∷ b ∷ [])) c) ≡ true)
      × (contains c (get_equivalences_for (add_equivalent_group_kinds e (a ∷ b ∷ [])) b) ≡ false)
unfolding get_equivalences_for contains
bridge_asymmetric e a b c i j p la lb lc n m =
    let h = IsPartition-InRange e p a i la in
    rw (add-eq-enter_all e a (b ∷ []) i la) (
      ground (
        arith,
        group_kind_eq.beq_iff a c,
        group_kind_eq.beq_iff b c,
        group_kind_eq.beq_iff b b,
        enter_all_lem i (a ∷ b ∷ []) e b h,
        enter_all_lem i (a ∷ b ∷ []) e c h,
        set_at-enter_all_ne i j (a ∷ b ∷ []) e h n,
        p b j,
        p c i,
      ))
