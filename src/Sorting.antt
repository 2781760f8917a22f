-- ===== src/Sorting.antt =====
-- pkg/controller/managedresource/sort.go: references sorted by their keys. The sorter holds the
-- keys in an array beside the references, and sort.Sort works on it through Len, Less and Swap
-- alone; what it may do is a step relation, whose steps are its calls of Swap.
use Prim.Native.Char.{code}
use gardener_resource_manage.Prelude.{
  ℕ, zero, suc, ◌<◌, String, Bool, true, false, Option, none, some, List, [], ◌∷◌, map, ◌≡◌,
}
use gardener_resource_manage.Prelude.Tests.{ltb, if◌then◌else◌}
use gardener_resource_manage.Prelude.Lists.{length, set, get_elem?}
use gardener_resource_manage.Api.Types.{ObjectReference}
use gardener_resource_manage.Keys.{object_key_by_reference}
pub mod Order
pub mod Swapping
pub mod Outcome

abbrev pub codes : String → List ℕ
codes String.[] = []
codes (String.◌∷◌ c s) = code c ∷ codes s

-- Go's < on texts.
unfoldable pub codes_below : List ℕ → List ℕ → Bool
codes_below xs [] = false
codes_below [] (y ∷ ys) = true
codes_below (x ∷ xs) (y ∷ ys) =
    let rest = codes_below xs ys in if ltb x y then true else if ltb y x then false else rest

unfoldable pub below : String → String → Bool
unfolding codes_below
below s t = codes_below (codes s) (codes t)

pub record ReferenceSorter : Type 0 where
  pub keys : List String
  pub refs : List ObjectReference

unfoldable pub new_reference_sorter : List ObjectReference → ReferenceSorter
new_reference_sorter refs = record { keys = map object_key_by_reference refs; refs = refs }

unfoldable pub len : ReferenceSorter → ℕ
len s = length s.refs

-- `none` is the panic of an index out of range.
abbrev pub both : {A B : Type 0} → (A → A → B) → Option A → Option A → Option B
both f (some a) (some b) = some (f a b)
both f _ _ = none

unfoldable pub less : ℕ → ℕ → ReferenceSorter → Option Bool
unfolding below
less i j s = both below (get_elem? s.keys i) (get_elem? s.keys j)

-- a[i], a[j] = a[j], a[i]
unfoldable pub exchange {ℓ} : {A : Type ℓ} → ℕ → ℕ → List A → Option (List A)
exchange i j xs = elim (get_elem? xs i) [
  | none ↦ none
  | some x ↦ elim (get_elem? xs j) [ none ↦ none | some y ↦ some (set (set xs i y) j x) ]
]

abbrev pub swapped : Option (List String) → Option (List ObjectReference) → Option ReferenceSorter
swapped (some ks) (some rs) = some (record { keys = ks; refs = rs })
swapped _ _ = none

unfoldable pub swap : ℕ → ℕ → ReferenceSorter → Option ReferenceSorter
unfolding exchange
swap i j s = swapped (exchange i j s.keys) (exchange i j s.refs)

-- What sort.Sort may do with a sorter, and how it leaves one.
pub data Sorting (s : ReferenceSorter) : ReferenceSorter → Type 0 where
  start : Sorting s s
  step : {t u : ReferenceSorter} (i j : ℕ) → Sorting s t → swap i j t ≡ some u → Sorting s u

abbrev pub IsOrdered : ReferenceSorter → Type 0
IsOrdered s = (i : ℕ) → suc i < len s → less (suc i) i s ≡ some false

-- sortObjectReferences, with sort.Sort as an argument.
unfoldable pub sort_object_references :
    (ReferenceSorter → ReferenceSorter) → List ObjectReference → List ObjectReference
sort_object_references sort refs = (sort (new_reference_sorter refs)).refs
