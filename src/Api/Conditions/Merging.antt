-- ===== src/Api/Conditions/Merging.antt =====
-- MergeConditions against a plain definition without indices.
use mathlib.Core.Option
use gardener_resource_manage.Prelude.{
  ℕ, suc, ◌≡◌, ◌≢◌, Option, none, some, List, [], ◌∷◌, ◌++◌, arith, refl, ◌∙◌, ap,
}
use gardener_resource_manage.Prelude.Tests.{◌==◌, string_eq, if◌then◌else◌}
use gardener_resource_manage.Prelude.Lists.{set, All}
use gardener_resource_manage.Prelude.Dict.{Dict, lookup, insert, lookup-insert, or_else}
use gardener_resource_manage.Api.Types.{ConditionType, ManagedResourceCondition}
use gardener_resource_manage.Api.Conditions.{
  get_condition, type_to_index, merge_new, merge_conditions,
}

abbrev Conditions : Type 0
Conditions = List ManagedResourceCondition

-- No two conditions have one type.
abbrev pub UniqueTypes : Conditions → Type 0
UniqueTypes [] = Unit
UniqueTypes (c ∷ cs) = (get_condition cs c.type ≡ none) × UniqueTypes cs

-- The first condition of the same type is replaced; if there is none, `c` goes to the end.
unfoldable pub supersede : ManagedResourceCondition → Conditions → Conditions
supersede c [] = c ∷ []
supersede c (d ∷ ds) = if d.type == c.type then c ∷ ds else d ∷ supersede c ds

unfoldable pub supersede_all : Conditions → Conditions → Conditions
supersede_all [] out = out
supersede_all (c ∷ cs) out = supersede_all cs (supersede c out)

-- The last index of a type, counted from `i`.
last_index : ℕ → ConditionType → Conditions → Option ℕ
last_index i t [] = none
last_index i t (c ∷ cs) = or_else (last_index (suc i) t cs) (if c.type == t then some i else none)

lookup-type_to_index :
    (i : ℕ) (cs : Conditions) (index : Dict ConditionType ℕ) (t : ConditionType)
    → lookup t (type_to_index i cs index) ≡ or_else (last_index i t cs) (lookup t index)
unfolding type_to_index last_index
lookup-type_to_index i [] index t = refl
lookup-type_to_index i (c ∷ cs) index t = ground (
  arith,
  lookup-type_to_index (suc i) cs (insert c.type i index) t,
  lookup-insert c.type t i index,
)

-- What `supersede` does, by the index that the table has for the type.
abbrev at_index : ManagedResourceCondition → Conditions → Option ℕ → Conditions
at_index c out (some i) = set out i c
at_index c out none = out ++ c ∷ []

last_index-suc :
    (i : ℕ) (t : ConditionType) (cs : Conditions)
    → last_index (suc i) t cs ≡ Option.map suc (last_index i t cs)
unfolding last_index
last_index-suc i t [] = refl
last_index-suc i t (c ∷ cs) = ground (arith, last_index-suc (suc i) t cs, last_index-suc i t cs)

last_index-eq-none :
    (i : ℕ) (t : ConditionType) (cs : Conditions)
    → get_condition cs t ≡ none
    → last_index i t cs ≡ none
unfolding last_index get_condition
last_index-eq-none i t [] h = refl
last_index-eq-none i t (c ∷ cs) h = ground (arith, last_index-eq-none (suc i) t cs)

at_index-suc :
    (c d : ManagedResourceCondition) (ds : Conditions) (o : Option ℕ)
    → at_index c (d ∷ ds) (Option.map suc o) ≡ d ∷ at_index c ds o
at_index-suc c d ds none = refl
at_index-suc c d ds (some i) = refl

at_index-eq-supersede :
    (c : ManagedResourceCondition) (out : Conditions)
    → UniqueTypes out
    → at_index c out (last_index 0 c.type out) ≡ supersede c out
unfolding last_index supersede
at_index-eq-supersede c [] u = refl
at_index-eq-supersede c (d ∷ ds) u = ground (
  arith,
  string_eq.beq_iff d.type c.type,
  last_index-suc 0 c.type ds,
  last_index-eq-none 0 c.type ds,
  at_index-suc c d ds (last_index 0 c.type ds),
  at_index-eq-supersede c ds u.1,
)

-- A type that is not superseded keeps its index, whatever happens to the others.
last_index-supersede_ne :
    (i : ℕ) (t : ConditionType) (c : ManagedResourceCondition) (out : Conditions)
    → c.type ≢ t
    → last_index i t (supersede c out) ≡ last_index i t out
unfolding last_index supersede
last_index-supersede_ne i t c [] h = ground (arith, string_eq.beq_iff c.type t)
last_index-supersede_ne i t c (d ∷ ds) h = ground (
  arith,
  string_eq.beq_iff d.type c.type,
  string_eq.beq_iff c.type t,
  string_eq.beq_iff d.type t,
  last_index-supersede_ne (suc i) t c ds h,
)

pub get_condition-supersede :
    (c : ManagedResourceCondition) (out : Conditions) (t : ConditionType)
    → get_condition (supersede c out) t ≡ (if c.type == t then some c else get_condition out t)
unfolding get_condition supersede
get_condition-supersede c [] t = refl
get_condition-supersede c (d ∷ ds) t = ground (
  arith,
  string_eq.beq_iff d.type c.type,
  string_eq.beq_iff c.type t,
  string_eq.beq_iff d.type t,
  get_condition-supersede c ds t,
)

pub supersede-UniqueTypes :
    (c : ManagedResourceCondition) (out : Conditions)
    → UniqueTypes out
    → UniqueTypes (supersede c out)
unfolding supersede get_condition
supersede-UniqueTypes c [] u = (refl, tt)
supersede-UniqueTypes c (d ∷ ds) u = ground (
  arith,
  string_eq.beq_iff d.type c.type,
  string_eq.beq_iff c.type d.type,
  get_condition-supersede c ds d.type,
  supersede-UniqueTypes c ds u.1,
)

pub supersede_all-UniqueTypes :
    (cs out : Conditions) → UniqueTypes out → UniqueTypes (supersede_all cs out)
unfolding supersede_all
supersede_all-UniqueTypes [] out u = u
supersede_all-UniqueTypes (c ∷ cs) out u =
    supersede_all-UniqueTypes cs (supersede c out) (supersede-UniqueTypes c out u)

last_or_none : (o : Option ℕ) → or_else o none ≡ o
last_or_none none = refl
last_or_none (some i) = refl

-- The table is right about every condition that is still to come.
abbrev Tracks : Dict ConditionType ℕ → Conditions → Conditions → Type 0
Tracks index out cs = All (λ c. lookup c.type index ≡ last_index 0 c.type out) cs

supersede-Tracks :
    (index : Dict ConditionType ℕ) (out : Conditions) (c : ManagedResourceCondition)
    (cs : Conditions)
    → get_condition cs c.type ≡ none
    → Tracks index out cs
    → Tracks index (supersede c out) cs
unfolding get_condition
supersede-Tracks index out c [] h r = tt
supersede-Tracks index out c (d ∷ ds) h r = ground (
  arith,
  string_eq.beq_iff d.type c.type,
  last_index-supersede_ne 0 d.type c out,
  supersede-Tracks index out c ds,
)

merge_new-eq-supersede_all :
    (index : Dict ConditionType ℕ) (cs out : Conditions)
    → UniqueTypes cs
    → UniqueTypes out
    → Tracks index out cs
    → merge_new index cs out ≡ supersede_all cs out
unfolding merge_new supersede_all
merge_new-eq-supersede_all index [] out uc uo r = refl
merge_new-eq-supersede_all index (c ∷ cs) out uc uo r =
    ap (merge_new index cs) (ap (at_index c out) r.0 ∙ at_index-eq-supersede c out uo)
    ∙ merge_new-eq-supersede_all index cs (supersede c out) uc.1 (supersede-UniqueTypes c out uo)
        (supersede-Tracks index out c cs uc.0 r.1)

initially_Tracks : (out cs : Conditions) → Tracks (type_to_index 0 out []) out cs
unfolding lookup
initially_Tracks out [] = tt
initially_Tracks out (c ∷ cs) = (
  rw (lookup-type_to_index 0 out [] c.type) (last_or_none (last_index 0 c.type out)),
  initially_Tracks out cs,
)

-- MergeConditions, with its table of indices, is the plain replacement of each new condition in
-- turn, if neither list has two conditions of one type.
pub merge_conditions-eq-supersede_all :
    (old_conditions new_conditions : Conditions)
    → UniqueTypes old_conditions
    → UniqueTypes new_conditions
    → merge_conditions old_conditions new_conditions ≡ supersede_all new_conditions old_conditions
unfolding merge_conditions
merge_conditions-eq-supersede_all old_conditions new_conditions uo un =
    merge_new-eq-supersede_all (type_to_index 0 old_conditions []) new_conditions old_conditions un
      uo (initially_Tracks old_conditions new_conditions)

-- So one merged condition is read back under its type, every other type reads as before, and the
-- types stay unique.
pub get_condition-merge_conditions :
    (cs : Conditions) (c : ManagedResourceCondition) (t : ConditionType)
    → UniqueTypes cs
    → (get_condition (merge_conditions cs (c ∷ [])) t
        ≡ (if c.type == t then some c else get_condition cs t))
      × UniqueTypes (merge_conditions cs (c ∷ []))
unfolding supersede_all get_condition
get_condition-merge_conditions cs c t u =
    rw (merge_conditions-eq-supersede_all cs (c ∷ []) u (refl, tt))
      (get_condition-supersede c cs t, supersede-UniqueTypes c cs u)
