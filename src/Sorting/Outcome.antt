-- ===== src/Sorting/Outcome.antt =====
-- What sort.Sort leaves, by its contract that no key is below the one before it: the order of the
-- references does not depend on the order in which they were given.
use mathlib.Core.List.{Perm, Mem, mem-cons_self, mem-cons_of_mem}
use mathlib.Core.List.Perm
use gardener_resource_manage.Prelude.{
  ℕ, suc, ◌<◌, String, false, some, List, [], ◌∷◌, map, ◌≡◌, refl, sym, ap, ◌∙◌, arith,
}
use gardener_resource_manage.Prelude.Lists.{length, get_elem?, All}
use gardener_resource_manage.Api.Types.{ObjectReference}
use gardener_resource_manage.Keys.{object_key_by_reference}
use gardener_resource_manage.Sorting.{
  ReferenceSorter, new_reference_sorter, len, less, both, below, Sorting, IsOrdered,
}
use gardener_resource_manage.Sorting.Order.{IsSorted, below_trans, sorted_unique}
use gardener_resource_manage.Sorting.Swapping.{InStep, sorting_permutes}

-- Neighbours are in order.
abbrev Neighbours : List String → Type 0
Neighbours ks =
    (i : ℕ) → suc i < length ks → both below (get_elem? ks (suc i)) (get_elem? ks i) ≡ some false

below-All :
    (k j : String) (ks : List String)
    → below j k ≡ false
    → All (λ i. below i j ≡ false) ks
    → All (λ i. below i k ≡ false) ks
below-All k j [] h hs = tt
below-All k j (i ∷ is) h (g, gs) = (below_trans k j i h g, below-All k j is h gs)

Neighbours-IsSorted : (ks : List String) → Neighbours ks → IsSorted ks
Neighbours-IsSorted [] h = tt
Neighbours-IsSorted (k ∷ []) h = (tt, tt)
Neighbours-IsSorted (k ∷ (j ∷ ks)) h =
    let rest = Neighbours-IsSorted (j ∷ ks) (λ i lt. h (suc i) (omega arith)) in
    let first : below j k ≡ false = cc (h 0 (omega arith)) in
    ((first, below-All k j ks first rest.0), rest)

length-map : {A B : Type 0} (f : A → B) (xs : List A) → length (map f xs) ≡ length xs
length-map f [] = refl
length-map f (x ∷ xs) = ap suc (length-map f xs)

IsOrdered-keys : (s : ReferenceSorter) → InStep s → IsOrdered s → IsSorted s.keys
unfolding less len
IsOrdered-keys s inv h =
    Neighbours-IsSorted s.keys
      (λ i lt. h i (omega (arith, ap length inv, length-map object_key_by_reference s.refs)))

identified :
    (P : ObjectReference → Type 0)
    → ((a b : ObjectReference)
        → P a
        → P b
        → object_key_by_reference a ≡ object_key_by_reference b
        → a ≡ b)
    → (xs ys : List ObjectReference) → ((a : ObjectReference) → Mem a xs → P a)
    → ((a : ObjectReference) → Mem a ys → P a)
    → map object_key_by_reference xs ≡ map object_key_by_reference ys
    → xs ≡ ys
identified P same [] [] h k eq = refl
identified P same [] (y ∷ ys) h k eq = cc
identified P same (x ∷ xs) [] h k eq = cc
identified P same (x ∷ xs) (y ∷ ys) h k eq =
    let head = same x y (h x mem-cons_self) (k y mem-cons_self) (cc) in
    let tail =
      identified P same xs ys (λ a m. h a (mem-cons_of_mem x m)) (λ a m. k a (mem-cons_of_mem y m))
        (cc) in
    λ i. head i ∷ tail i

module _ {refs refs' : List ObjectReference} {s s' : ReferenceSorter} (same : Perm refs refs')
    (run : Sorting (new_reference_sorter refs) s) (run' : Sorting (new_reference_sorter refs') s')
    (done : IsOrdered s) (done' : IsOrdered s') where
  -- Two lists of the same references, in any orders, are sorted to the same list of keys.
  sorting_keys : s.keys ≡ s'.keys
  sorting_keys =
      let (inv, p) = sorting_permutes refs run in
      let (inv', p') = sorting_permutes refs' run' in
      let q = Perm.trans (Perm.symm p) (Perm.trans same p') in
      sorted_unique s.keys s'.keys (rw (inv, inv') (Perm.map object_key_by_reference q))
        (IsOrdered-keys s inv done) (IsOrdered-keys s' inv' done')

  -- Two lists of the same references, in any orders, are sorted to the same list if no two
  -- different references of them have one key; for any two runs of swaps that end in order.
  pub sorting_canonical :
      ((a b : ObjectReference)
        → Mem a refs
        → Mem b refs
        → object_key_by_reference a ≡ object_key_by_reference b
        → a ≡ b)
      → s.refs ≡ s'.refs
  sorting_canonical unique =
      let (inv, p) = sorting_permutes refs run in
      let (inv', p') = sorting_permutes refs' run' in
      identified (λ a. Mem a refs) unique s.refs s'.refs (λ a m. (Perm.mem_iff (Perm.symm p)).0 m)
        (λ a m. (Perm.mem_iff (Perm.symm (Perm.trans same p'))).0 m) (sym inv ∙ sorting_keys ∙ inv')
