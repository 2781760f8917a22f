-- ===== src/Sorting/Swapping.antt =====
-- What calls of Swap keep: the keys stay those of the references, and no reference is lost or
-- doubled.
use mathlib.Core.List.{Perm}
use mathlib.Core.List.Perm
use gardener_resource_manage.Prelude.{
  ℕ, zero, suc, String, Option, none, some, List, [], ◌∷◌, map, ◌≡◌, refl, ap, inl, inr, arith,
}
use gardener_resource_manage.Prelude.Tests.{Option-cases}
use gardener_resource_manage.Prelude.Lists.{set, get_elem?}
use gardener_resource_manage.Api.Types.{ObjectReference}
use gardener_resource_manage.Keys.{object_key_by_reference}
use gardener_resource_manage.Sorting.{
  ReferenceSorter, new_reference_sorter, exchange, swapped, swap, Sorting, start, step,
}

module _ {A : Type 0} where
  set-perm :
      (xs : List A) (i : ℕ) (x y : A) → get_elem? xs i ≡ some x → Perm (y ∷ xs) (x ∷ set xs i y)
  set-perm [] i x y h = ground arith
  set-perm (z ∷ xs) zero x y h = let e : z ≡ x = cc in rw e (Perm.swap x y xs)
  set-perm (z ∷ xs) (suc i) x y h =
      Perm.trans (Perm.swap z y xs)
        (Perm.trans (Perm.cons z (set-perm xs i x y h)) (Perm.swap x z (set xs i y)))

  get_elem?-set :
      (xs : List A) (i j : ℕ) (y z : A)
      → get_elem? xs i ≡ some z
      → get_elem? xs j ≡ some y
      → get_elem? (set xs i y) j ≡ some y
  get_elem?-set [] i j y z g h = ground arith
  get_elem?-set (x ∷ xs) zero zero y z g h = refl
  get_elem?-set (x ∷ xs) zero (suc j) y z g h = h
  get_elem?-set (x ∷ xs) (suc i) zero y z g h = h
  get_elem?-set (x ∷ xs) (suc i) (suc j) y z g h = get_elem?-set xs i j y z g h

  exchange_read :
      (xs ys : List A) (i j : ℕ)
      → exchange i j xs ≡ some ys
      → (x : A) × (y : A) × (get_elem? xs i ≡ some x)
        × (get_elem? xs j ≡ some y)
        × (set (set xs i y) j x ≡ ys)
  unfolding exchange
  exchange_read xs ys i j h = elim (Option-cases (get_elem? xs i)) [
    | inl e ↦ ground (arith, rw (e, exchange) at h)
    | inr (x, e) ↦ elim (Option-cases (get_elem? xs j)) [
      | inl f ↦ ground (arith, e, f)
      | inr (y, f) ↦ (x, y, e, f, ground (arith, e, f))
    ]
  ]

  exchange-perm : (xs ys : List A) (i j : ℕ) → exchange i j xs ≡ some ys → Perm xs ys
  exchange-perm xs ys i j h =
      let (x, y, e, f, g) = exchange_read xs ys i j h in
      rw g at (
        Perm.cons_inv {a = y} (
          Perm.trans (set-perm xs i x y e)
            (set-perm (set xs i y) j y x (get_elem?-set xs i j y x e f))))

module _ {A B : Type 0} (f : A → B) where
  get_elem?-map :
      (xs : List A) (i : ℕ)
      → get_elem? (map f xs) i ≡ elim (get_elem? xs i) [ none ↦ none | some x ↦ some (f x) ]
  get_elem?-map [] i = refl
  get_elem?-map (x ∷ xs) zero = refl
  get_elem?-map (x ∷ xs) (suc i) = get_elem?-map xs i

  set-map : (xs : List A) (i : ℕ) (y : A) → set (map f xs) i (f y) ≡ map f (set xs i y)
  set-map [] i y = refl
  set-map (x ∷ xs) zero y = refl
  set-map (x ∷ xs) (suc i) y = ap (λ r. f x ∷ r) (set-map xs i y)

  exchange-map :
      (xs ys : List A) (i j : ℕ)
      → exchange i j xs ≡ some ys
      → exchange i j (map f xs) ≡ some (map f ys)
  unfolding exchange
  exchange-map xs ys i j h =
      let (x, y, e, g, k) = exchange_read xs ys i j h in
      ground (
        arith,
        e,
        g,
        k,
        get_elem?-map xs i,
        get_elem?-map xs j,
        set-map xs i y,
        set-map (set xs i y) j x,
      )

-- The keys are those of the references, position by position.
abbrev pub InStep : ReferenceSorter → Type 0
InStep s = s.keys ≡ map object_key_by_reference s.refs

swapped_parts :
    (ks : Option (List String)) (rs : Option (List ObjectReference)) (u : ReferenceSorter)
    → swapped ks rs ≡ some u
    → (ks ≡ some u.keys) × (rs ≡ some u.refs)
swapped_parts (some ks) (some rs) u h = ground arith
swapped_parts none rs u h = ground arith
swapped_parts (some ks) none u h = ground arith

swap_lem :
    (i j : ℕ) (t u : ReferenceSorter)
    → InStep t
    → swap i j t ≡ some u
    → InStep u × Perm t.refs u.refs
unfolding swap
swap_lem i j t u h eq =
    let (ks, rs) = swapped_parts (exchange i j t.keys) (exchange i j t.refs) u eq in
    let both = exchange-map object_key_by_reference t.refs u.refs i j rs in
    (ground (arith, h, ks, both), exchange-perm t.refs u.refs i j rs)

pub sorting_keeps : {s t : ReferenceSorter} → InStep s → Sorting s t → InStep t × Perm s.refs t.refs
sorting_keeps {s} h start = (h, Perm.refl s.refs)
sorting_keeps {s} h (step {t} {u} i j before eq) =
    let (k, p) = sorting_keeps h before in
    let (k', p') = swap_lem i j t u k eq in (k', Perm.trans p p')

-- However sort.Sort calls Swap, the keys stay those of the references beside them, and the
-- references are a permutation of those that the sorter was made of.
pub sorting_permutes :
    (refs : List ObjectReference) {s : ReferenceSorter}
    → Sorting (new_reference_sorter refs) s
    → (s.keys ≡ map object_key_by_reference s.refs) × Perm refs s.refs
unfolding new_reference_sorter
sorting_permutes refs run = sorting_keeps refl run
