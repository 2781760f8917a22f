-- ===== src/Reconciler/Cleaning/Laws.antt =====
-- What cleanOldResources deletes, and how its flag and its errors relate.
use gardener_resource_manage.Prelude.{
  String, Bool, false, not, none, List, [], ◌∷◌, ◌≡◌, refl, inl, inr, arith,
}
use gardener_resource_manage.Prelude.Tests.{string_eq, Bool-cases}
use gardener_resource_manage.Prelude.Lists.{All, is_empty}
use gardener_resource_manage.Prelude.Dict.{Dict}
use gardener_resource_manage.Errors.{Error, Result, ok, err}
use gardener_resource_manage.Api.Types.{ObjectReference, ManagedResource}
use gardener_resource_manage.Objects.{Unstructured}
use gardener_resource_manage.ObjectIndex.{ObjectIndex, is_found}
use gardener_resource_manage.Reconciler.Annotations.{keep_object}
use gardener_resource_manage.Reconciler.Cleaner.{TargetClient, cleanup}
use gardener_resource_manage.Reconciler.Cleaning.{
  Output, gone_or_failure, after_delete, after_cleanup, after_get, clean_one, clean_all, collect,
  errors_of, clean_old_resources, deletes_claims, resource_text,
}

-- No goroutine reports an error without a pending deletion.
abbrev pub IsReport : Output → Type 0
IsReport out = out.deletion_pending ≡ false → out.error ≡ none

pub gone_or_failure-IsReport :
    (resource : String) (e : Error) → IsReport (gone_or_failure resource e)
gone_or_failure-IsReport resource e h = ground arith

module _ {W C : Type 0} (client : TargetClient W C) (delete_pvcs : Bool) where
  after_cleanup-IsReport :
      (resource : String) (o : Unstructured C) (r : Result (Unit {0}) × W)
      → IsReport (after_cleanup client delete_pvcs resource o r).0
  after_cleanup-IsReport resource o (err e, w) h = ground arith
  after_cleanup-IsReport resource o (ok _, w) h = after_delete-IsReport (client.delete _ o w) h
    where
      after_delete-IsReport :
          (r : Result (Unit {0}) × W) → IsReport (after_delete client delete_pvcs resource r).0
      after_delete-IsReport (err e, w) h = gone_or_failure-IsReport resource e h
      after_delete-IsReport (ok _, w) h = ground arith

  after_get-IsReport :
      (resource : String) (r : Result (Unstructured C) × W)
      → IsReport (after_get client delete_pvcs resource r).0
  after_get-IsReport resource (err e, w) = gone_or_failure-IsReport resource e
  after_get-IsReport resource (ok o, w) = elim (Bool-cases (keep_object o)) [
    | inl kept ↦ rw (kept, after_get) (λ h. refl)
    | inr other ↦
        rw (other, after_get) (after_cleanup-IsReport resource o (cleanup client o delete_pvcs w))
  ]

  clean_all-IsReport :
      (index : ObjectIndex) (objects : Dict String ObjectReference) (w : W)
      → All IsReport (clean_all client delete_pvcs index objects w).0
  unfolding clean_all clean_one
  clean_all-IsReport index [] w = tt
  clean_all-IsReport index ((key, ref) ∷ objects) w = elim (Bool-cases (is_found index ref)) [
    | inl found ↦ rw (found, clean_all) (clean_all-IsReport index objects w)
    | inr lost ↦
        rw (lost, clean_all)
          (
            after_get-IsReport (resource_text ref) (client.get ref w),
            clean_all-IsReport index objects _,
          )
  ]

pub collect_pending :
    (outs : List Output) → All IsReport outs → (collect outs).0 ≡ not (is_empty (collect outs).1)
unfolding collect errors_of is_empty
collect_pending [] h = refl
collect_pending (out ∷ outs) (h, hs) = ground (arith, h, collect_pending outs hs)

-- cleanOldResources gives an error exactly when it says that a deletion is pending. (So the
-- branches of its callers for an error without a pending deletion, which set the reason
-- DeletionFailed, are never taken.)
pub clean_old_resources_pending :
    {W C : Type 0} (client : TargetClient W C) (index : ObjectIndex) (mr : ManagedResource) (w : W)
    → (clean_old_resources client index mr w).0.0
      ≡ not (is_empty (clean_old_resources client index mr w).0.1)
unfolding clean_old_resources
clean_old_resources_pending client index mr w =
    collect_pending (clean_all client (deletes_claims mr) index index.index w).0
      (clean_all-IsReport client (deletes_claims mr) index index.index w)
