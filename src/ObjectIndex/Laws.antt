-- ===== src/ObjectIndex/Laws.antt =====
-- What is found stays found: a lookup marks the first key that the index has, and nothing else.
use mathlib.Core.Path.{subst, fun_ext}
use gardener_resource_manage.Prelude.{
  String, true, Option, none, some, List, [], ◌∷◌, ◌≡◌, ◌⊎◌, inl, inr, refl, arith, ap, sym, ◌∙◌,
}
use gardener_resource_manage.Prelude.Tests.{string_eq, Option-cases}
use gardener_resource_manage.Prelude.Lists.{contains, All, Any}
use gardener_resource_manage.Prelude.Dict.{Dict, lookup, insert, lookup-insert}
use gardener_resource_manage.Api.Types.{ObjectReference}
use gardener_resource_manage.Keys.{object_key_by_reference}
use gardener_resource_manage.Equivalences.{Equivalences}
use gardener_resource_manage.ObjectIndex.{
  ObjectIndex, index_all, new_object_index, is_found, lookup_keys, try_keys, lookup_reference,
}

-- Every reference stands under its own key.
abbrev pub IsKeyed : Dict String ObjectReference → Type 0
IsKeyed index =
    (k : String) (r : ObjectReference) → lookup k index ≡ some r → object_key_by_reference r ≡ k

index_all-IsKeyed :
    (refs : List ObjectReference) (index : Dict String ObjectReference)
    → IsKeyed index
    → IsKeyed (index_all refs index)
unfolding index_all
index_all-IsKeyed [] index h = h
index_all-IsKeyed (x ∷ xs) index h =
    index_all-IsKeyed xs (insert (object_key_by_reference x) x index) λ k r p. ground (
      arith,
      string_eq.beq_iff (object_key_by_reference x) k,
      lookup-insert (object_key_by_reference x) k x index,
      h k r,
    )

-- A new index holds each reference under its own key.
pub new_object_index-IsKeyed :
    (refs : List ObjectReference) (e : Equivalences) → IsKeyed (new_object_index refs e).index
unfolding new_object_index lookup
new_object_index-IsKeyed refs e = index_all-IsKeyed refs [] (λ k r p. cc)

-- The outcome of a lookup: nothing and no change where no key is in the index, and otherwise the
-- reference at a key that is in it, which is marked.
abbrev pub Looked : ObjectIndex → List String → ObjectIndex × Option ObjectReference → Type 0
Looked i keys out =
    ((out ≡ (i, none)) × All (λ k. lookup k i.index ≡ none) keys)
    ⊎ ((k : String) × (r : ObjectReference) × (contains k keys ≡ true)
        × (lookup k i.index ≡ some r)
        × (out ≡ (record i { found = k ∷ i.found }, some r)))

try_keys-Looked : (i : ObjectIndex) (keys : List String) → Looked i keys (try_keys i keys)
unfolding try_keys contains
try_keys-Looked i [] = inl (refl, tt)
try_keys-Looked i (k ∷ ks) = elim (Option-cases (lookup k i.index)) [
  | inr (r, p) ↦ inr (k, r, ground (arith, string_eq.beq_iff k k), p, rw (p, try_keys))
  | inl p ↦ elim (try_keys-Looked i ks) [
    | inl (q, a) ↦ inl (rw (p, try_keys) q, (p, a))
    | inr (k', r, c, l, q) ↦ inr (k', r, ground (arith, c), l, rw (p, try_keys) q)
  ]
]

is_found_head :
    (i : ObjectIndex) (k : String) (r : ObjectReference)
    → object_key_by_reference r ≡ k
    → is_found (record i { found = k ∷ i.found }) r ≡ true
unfolding is_found contains
is_found_head i k r h = ground (arith, string_eq.beq_iff k (object_key_by_reference r))

Looked-found :
    (i : ObjectIndex) (keys : List String) (out : ObjectIndex × Option ObjectReference)
    → IsKeyed i.index
    → Looked i keys out
    → (r : ObjectReference) → out.1 ≡ some r
    → is_found out.0 r ≡ true
Looked-found i keys out h (inl (q, a)) r p = cc
Looked-found i keys out h (inr (k, r', c, l, q)) r p =
    rw q (is_found_head i k r (h k r (l ∙ ap (λ o. o.1) (sym q) ∙ p)))

pub lookup_reference_cases :
    (i : ObjectIndex) (ref : ObjectReference)
    → Looked i (lookup_keys i ref) (lookup_reference i ref)
unfolding lookup_reference
lookup_reference_cases i ref = try_keys-Looked i (lookup_keys i ref)

-- Lookup finds nothing exactly if neither the reference's own key nor that of an equivalent
-- GroupKind is in the index; it then changes nothing. Otherwise it returns the reference at one of
-- these keys, which Found then answers with true.
pub lookup_reference-Looked :
    (i : ObjectIndex) (ref : ObjectReference)
    → IsKeyed i.index
    → Looked i (lookup_keys i ref) (lookup_reference i ref)
      × ((r : ObjectReference)
          → (lookup_reference i ref).1 ≡ some r
          → is_found (lookup_reference i ref).0 r ≡ true)
lookup_reference-Looked i ref h = (
  lookup_reference_cases i ref,
  Looked-found i (lookup_keys i ref) (lookup_reference i ref) h (lookup_reference_cases i ref),
)

-- The lookups of one run, in the order of the new objects.
abbrev pub lookup_all : ObjectIndex → List ObjectReference → ObjectIndex
lookup_all i [] = i
lookup_all i (ref ∷ refs) = lookup_all (lookup_reference i ref).0 refs

index-lookup_reference :
    (i : ObjectIndex) (ref : ObjectReference)
    → ((lookup_reference i ref).0.index ≡ i.index)
      × ((lookup_reference i ref).0.equivalences ≡ i.equivalences)
index-lookup_reference i ref = elim (lookup_reference_cases i ref) [
  | inl (q, _) ↦ (ap (λ o. o.0.index) q, ap (λ o. o.0.equivalences) q)
  | inr (k, r, c, l, q) ↦ (ap (λ o. o.0.index) q, ap (λ o. o.0.equivalences) q)
]

lookup_keys-lookup_reference :
    (i : ObjectIndex) (ref x : ObjectReference)
    → lookup_keys (lookup_reference i ref).0 x ≡ lookup_keys i x
unfolding lookup_keys
lookup_keys-lookup_reference i ref x = rw ((index-lookup_reference i ref).1)

contains_own_key :
    (i : ObjectIndex) (ref r : ObjectReference)
    → lookup (object_key_by_reference ref) i.index ≡ some r
    → contains (object_key_by_reference ref) (lookup_reference i ref).0.found ≡ true
unfolding lookup_reference contains
contains_own_key i ref r p =
    ground (arith, string_eq.beq_iff (object_key_by_reference ref) (object_key_by_reference ref))

found-lookup_reference :
    (i : ObjectIndex) (ref : ObjectReference) (k : String)
    → contains k i.found ≡ true
    → contains k (lookup_reference i ref).0.found ≡ true
unfolding contains
found-lookup_reference i ref k h = elim (lookup_reference_cases i ref) [
  | inl (q, _) ↦ rw q h
  | inr (k', r, c, l, q) ↦ rw q (ground arith)
]

found-lookup_all :
    (i : ObjectIndex) (refs : List ObjectReference) (k : String)
    → contains k i.found ≡ true
    → contains k (lookup_all i refs).found ≡ true
found-lookup_all i [] k h = h
found-lookup_all i (ref ∷ refs) k h =
    found-lookup_all (lookup_reference i ref).0 refs k (found-lookup_reference i ref k h)

-- An old object whose key is that of a new object is found in the end, whatever was looked up
-- before or after it: it is not among the objects to delete.
pub lookup_all_keeps :
    (i : ObjectIndex) (refs : List ObjectReference) (r : ObjectReference)
    → lookup (object_key_by_reference r) i.index ≡ some r
    → Any (λ ref. object_key_by_reference ref ≡ object_key_by_reference r) refs
    → is_found (lookup_all i refs) r ≡ true
unfolding is_found
lookup_all_keeps i [] r l h = elim h [ ]
lookup_all_keeps i (ref ∷ refs) r l (inl p) =
    found-lookup_all (lookup_reference i ref).0 refs (object_key_by_reference r) (
      subst (λ k. contains k (lookup_reference i ref).0.found ≡ true) p
        (contains_own_key i ref r (rw p l)))
lookup_all_keeps i (ref ∷ refs) r l (inr p) =
    lookup_all_keeps (lookup_reference i ref).0 refs r (rw ((index-lookup_reference i ref).0) l) p

of_head :
    (k' k : String) (found keys : List String)
    → contains k' keys ≡ true
    → contains k (k' ∷ found) ≡ true
    → (contains k found ≡ true) ⊎ (contains k keys ≡ true)
unfolding contains
of_head k' k found keys c h = ground (arith, string_eq.beq_iff k' k)

newly_found :
    (i : ObjectIndex) (ref : ObjectReference) (k : String)
    → contains k (lookup_reference i ref).0.found ≡ true
    → (contains k i.found ≡ true) ⊎ (contains k (lookup_keys i ref) ≡ true)
newly_found i ref k h = elim (lookup_reference_cases i ref) [
  | inl (q, _) ↦ inl (subst (λ o. contains k o.0.found ≡ true) q h)
  | inr (k', r, c, l, q) ↦
      of_head k' k i.found (lookup_keys i ref) c (subst (λ o. contains k o.0.found ≡ true) q h)
]

lookup_all_only :
    (i : ObjectIndex) (refs : List ObjectReference) (k : String)
    → contains k (lookup_all i refs).found ≡ true
    → (contains k i.found ≡ true) ⊎ Any (λ ref. contains k (lookup_keys i ref) ≡ true) refs
lookup_all_only i [] k h = inl h
lookup_all_only i (ref ∷ refs) k h = elim (lookup_all_only (lookup_reference i ref).0 refs k h) [
  | inl p ↦ elim (newly_found i ref k p) [ inl old ↦ inl old | inr new ↦ inr (inl new) ]
  | inr a ↦ inr (
      inr (
        subst (λ f. Any (λ x. contains k (f x) ≡ true) refs)
          (fun_ext (lookup_keys-lookup_reference i ref)) a))
]

-- An old object is found only if its key is one that Lookup tries for some new object: its own,
-- or that of an equivalent GroupKind.
pub found_only_if_desired :
    (old refs : List ObjectReference) (e : Equivalences) (r : ObjectReference)
    → is_found (lookup_all (new_object_index old e) refs) r ≡ true
    → Any
        (λ ref.
          contains (object_key_by_reference r) (lookup_keys (new_object_index old e) ref) ≡ true)
        refs
unfolding is_found contains new_object_index
found_only_if_desired old refs e r h =
    elim (lookup_all_only (new_object_index old e) refs (object_key_by_reference r) h) [
      | inl p ↦ cc
      | inr a ↦ a
    ]
