-- ===== src/Reconciler/Cleaning/Gone.antt =====
-- What cleanOldResources says once the old objects are gone.
use gardener_resource_manage.Prelude.{
  String, Bool, true, false, List, [], ◌∷◌, ◌≡◌, refl, ◌⊎◌, inl, inr, arith,
}
use gardener_resource_manage.Prelude.Tests.{string_eq, Bool-cases}
use gardener_resource_manage.Prelude.Lists.{All}
use gardener_resource_manage.Prelude.Dict.{Dict}
use gardener_resource_manage.Errors.{Error, Result, ok, err}
use gardener_resource_manage.Api.Types.{ObjectReference, ManagedResource}
use gardener_resource_manage.Objects.{Unstructured}
use gardener_resource_manage.ObjectIndex.{ObjectIndex, is_found}
use gardener_resource_manage.Reconciler.Annotations.{keep_object}
use gardener_resource_manage.Reconciler.Cleaner.{TargetClient}
use gardener_resource_manage.Reconciler.Cleaning.{
  Output, finished, is_gone, gone_or_failure, after_get, clean_one, clean_all, collect, errors_of,
  clean_old_resources, deletes_claims, resource_text,
}

module _ {W C : Type 0} (client : TargetClient W C) where
  -- A read at any time says that the object is gone, or finds one that asks to be kept.
  abbrev pub Absent : ObjectReference → Type 0
  Absent ref =
      (w : W)
      → ((e : Error) × ((client.get ref w).0 ≡ err e) × (is_gone e ≡ true))
        ⊎ ((o : Unstructured C) × ((client.get ref w).0 ≡ ok o) × (keep_object o ≡ true))

module _ {W C : Type 0} (client : TargetClient W C) (delete_pvcs : Bool) where
  after_get_gone :
      (resource : String) (e : Error) (r : Result (Unstructured C) × W)
      → r.0 ≡ err e
      → is_gone e ≡ true
      → (after_get client delete_pvcs resource r).0 ≡ finished resource
  after_get_gone resource e (err x, w) h gone =
      let same : x ≡ e = cc in
      let gone' : is_gone x ≡ true = rw same gone in rw (gone', gone_or_failure) refl
  after_get_gone resource e (ok o, w) h gone = ground arith

  after_get_kept :
      (resource : String) (o : Unstructured C) (r : Result (Unstructured C) × W)
      → r.0 ≡ ok o
      → keep_object o ≡ true
      → (after_get client delete_pvcs resource r).0 ≡ finished resource
  after_get_kept resource o (ok x, w) h kept =
      let same : x ≡ o = cc in
      let kept' : keep_object x ≡ true = rw same kept in rw (kept', after_get) refl
  after_get_kept resource o (err e, w) h kept = ground arith

  clean_one-Absent :
      (ref : ObjectReference) (w : W)
      → Absent client ref
      → (clean_one client delete_pvcs ref w).0 ≡ finished (resource_text ref)
  unfolding clean_one
  clean_one-Absent ref w absent = elim (absent w) [
    | inl (e, read, gone) ↦ after_get_gone (resource_text ref) e (client.get ref w) read gone
    | inr (o, read, kept) ↦ after_get_kept (resource_text ref) o (client.get ref w) read kept
  ]

  collect-finished :
      (resource : String) (out : Output) (outs : List Output)
      → out ≡ finished resource
      → collect outs ≡ (false, [])
      → collect (out ∷ outs) ≡ (false, [])
  unfolding collect errors_of
  collect-finished resource out outs e h = ground (arith, e, h)

  collect_nothing : collect [] ≡ (false, [])
  unfolding collect
  collect_nothing = refl

  clean_all-Absent :
      (index : ObjectIndex) (objects : Dict String ObjectReference) (w : W)
      → All (λ x. (is_found index x.1 ≡ true) ⊎ Absent client x.1) objects
      → collect (clean_all client delete_pvcs index objects w).0 ≡ (false, [])
  unfolding clean_all
  clean_all-Absent index [] w h = collect_nothing
  clean_all-Absent index ((key, ref) ∷ objects) w (h, hs) = elim (Bool-cases (is_found index ref)) [
    | inl found ↦ rw (found, clean_all) (clean_all-Absent index objects w hs)
    | inr lost ↦ elim h [
      | inl found ↦ absurd (ground (arith, lost, found))
      | inr absent ↦
          rw (lost, clean_all)
            (collect-finished (resource_text ref) (clean_one client delete_pvcs ref w).0 _
              (clean_one-Absent ref w absent) (clean_all-Absent index objects _ hs))
    ]
  ]

-- When each of the old objects was found again, is gone, or asks to be kept, nothing is pending and
-- there is no error.
pub clean_old_resources_settled :
    {W C : Type 0} (client : TargetClient W C) (index : ObjectIndex) (mr : ManagedResource) (w : W)
    → All (λ x. (is_found index x.1 ≡ true) ⊎ Absent client x.1) index.index
    → (clean_old_resources client index mr w).0 ≡ (false, [])
unfolding clean_old_resources
clean_old_resources_settled client index mr w h =
    clean_all-Absent client (deletes_claims mr) index index.index w h
