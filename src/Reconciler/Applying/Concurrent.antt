-- ===== src/Reconciler/Applying/Concurrent.antt =====
-- applyNewResources with its goroutines side by side: a step is one call of the API server, so that
-- the goroutines and other clients may come in between any two calls.
use gardener_resource_manage.Prelude.{
  String, Bool, true, false, not, ◌&&◌, ◌||◌, List, [], ◌∷◌, ◌≡◌, ◌⊎◌,
}
use gardener_resource_manage.Prelude.Tests.{if◌then◌else◌}
use gardener_resource_manage.Errors.{
  Error, Result, ok, err, errorf, quoted, is_conflict, is_invalid, is_not_found, ◌+++◌,
}
use gardener_resource_manage.Exec.{Exec}
use gardener_resource_manage.Api.Types.{StringMap}
use gardener_resource_manage.Objects.{Unstructured}
use gardener_resource_manage.Equivalences.{Equivalences}
use gardener_resource_manage.Utils.CreateOrUpdate.{
  OperationResult, Registration, Reading, present, absent, failed, converted, missing,
  unsupported_type,
}
use gardener_resource_manage.Reconciler.Annotations.{
  delete_on_invalid_update, unstructured_to_string,
}
use gardener_resource_manage.Reconciler.Scaling.{ScaledObjects, is_scaled}
use gardener_resource_manage.Reconciler.Applying.{
  Object, Applier, mutate, was_updated, deleted_text,
}
use gardener_resource_manage.Goroutines.{Task, send, perform, Pool}
pub mod Writes
pub mod Interleaved

-- What goes on with a result beside the desired and the current object.
abbrev pub Next : Type 0 → Type 0 → Type 0 → Type 0
Next W C A = Result (Unit {0}) → Unstructured C × Unstructured C → Task W A

-- A function that may be retried: from the two objects on, with what goes on behind it.
abbrev pub Attempt : Type 0 → Type 0 → Type 0 → Type 0
Attempt W C A = Unstructured C × Unstructured C → Next W C A → Task W A

-- What retry.RetryOnConflict does: it calls its function, and behind each call it goes on with the
-- result of the call or calls the function again, so many times only.
pub data Retries {W C A : Type 0} (attempt : Attempt W C A) (next : Next W C A)
    : Unstructured C × Unstructured C → Task W A → Type 0 where
  tried :
      (s : Unstructured C × Unstructured C) (go_on : Next W C A)
      (is_last : Result (Unit {0}) → Unstructured C × Unstructured C → Bool)
      → ((r : Result (Unit {0})) (s' : Unstructured C × Unstructured C)
          → is_last r s' ≡ true
          → go_on r s' ≡ next r s')
      → ((r : Result (Unit {0})) (s' : Unstructured C × Unstructured C)
          → is_last r s' ≡ false
          → Retries attempt next s' (go_on r s'))
      → Retries attempt next s (attempt s go_on)

abbrev pub Retry : Type 0 → Type 0 → Type 0 → Type 0
Retry W C A = Attempt W C A → Unstructured C × Unstructured C → Next W C A → Task W A

module _ {W C T V : Type 0} (a : Applier W C T V) (origin : String) (labels : StringMap) where
  abbrev pub typed_reading : Result T → Reading C
  typed_reading (ok t) = converted a.client (a.client.convert t)
  typed_reading (err e) = missing a.client e

  abbrev pub untyped_reading : Result (Unstructured C) → Reading C
  untyped_reading (ok o) = present o
  untyped_reading (err e) = missing a.client e

  abbrev pub deleted_result : String → Error → Result (Unit {0}) → Result (Unit {0})
  deleted_result resource e (ok _) = err (deleted_text a origin labels resource e)
  deleted_result resource e (err d) =
      if is_not_found d
      then err (deleted_text a origin labels resource e)
      else err (
          errorf (
            "error deleting object "
            +++ (quoted resource +++ (" after 'invalid' update error: " +++ d.message))))

  module _ {A : Type 0} where
    abbrev pub read_task : Unstructured C → Registration → (Reading C → Task W A) → Task W A
    read_task o Registration.registered k =
        perform (a.client.get_typed o) (λ r. k (typed_reading r))
    read_task o Registration.unsupported k = k (failed (unsupported_type o))
    read_task o Registration.unregistered k = perform (a.client.get o) (λ r. k (untyped_reading r))

    abbrev pub answered_task :
        OperationResult
        → Unstructured C
        → Unstructured C
        → (OperationResult → Next W C A)
        → Result (Unstructured C)
        → Task W A
    answered_task op d o k (ok answer) = k op (ok tt) (d, answer)
    answered_task op d o k (err e) = k op (err e) (d, o)

    abbrev pub create_task :
        (OperationResult → Next W C A)
        → Result (Unit {0}) × (Unstructured C × Unstructured C)
        → Task W A
    create_task k (err e, s) = k OperationResult.unchanged (err e) s
    create_task k (ok _, (d, o)) =
        perform (a.client.create o) (answered_task OperationResult.created d o k)

    abbrev pub update_task :
        Unstructured C
        → (OperationResult → Next W C A)
        → Result (Unit {0}) × (Unstructured C × Unstructured C)
        → Task W A
    update_task existing k (err e, s) = k OperationResult.unchanged (err e) s
    update_task existing k (ok _, (d, o)) =
        if not a.always_update && a.client.deep_equal existing o
        then k OperationResult.unchanged (ok tt) (d, o)
        else perform (a.client.update o) (answered_task OperationResult.updated d o k)

    abbrev pub reading_task :
        Exec (Unstructured C × Unstructured C) (Unit {0})
        → Unstructured C
        → Unstructured C
        → (OperationResult → Next W C A)
        → Reading C
        → Task W A
    reading_task mutation d c k (failed e) = k OperationResult.unchanged (err e) (d, c)
    reading_task mutation d c k absent = create_task k (mutation (d, c))
    reading_task mutation d c k (present existing) = update_task existing k (mutation (d, existing))

    abbrev pub after_task : String → Next W C A → OperationResult → Next W C A
    after_task resource k op (ok _) s = k (ok tt) s
    after_task resource k op (err e) (desired, current) =
        if is_conflict e
        then k (err e) (desired, current)
        else if is_invalid e && was_updated a origin labels op && delete_on_invalid_update current
        then perform (a.client.delete current)
            (λ r. k (deleted_result resource e r) (desired, current))
        else k
            (err (
              errorf
                ("error during apply of object " +++ (quoted resource +++ (": " +++ e.message)))))
            (desired, current)

    -- The function under RetryOnConflict.
    unfoldable pub attempt_task : Object C → Bool → Bool → Attempt W C A
    attempt_task o h v (d, c) k = read_task c (a.client.registration c.gvk) (
        reading_task (mutate a origin labels o h v) d c
          (after_task (unstructured_to_string o.obj) k))

  -- The function under `go`.
  unfoldable pub apply_task :
      Retry W C (Result (Unit {0}))
      → ScaledObjects
      → Equivalences
      → Object C
      → Task W (Result (Unit {0}))
  unfolding attempt_task
  apply_task retry scaled equivalences o =
      retry
        (attempt_task o (is_scaled o.obj scaled.horizontally equivalences)
          (is_scaled o.obj scaled.vertically equivalences))
        (o.obj, o.obj) (λ r s. send r)

  -- The goroutines that the loop over the new objects starts.
  unfoldable pub apply_tasks :
      Retry W C (Result (Unit {0}))
      → ScaledObjects
      → Equivalences
      → List (Object C)
      → List (Task W (Result (Unit {0})))
  unfolding apply_task
  apply_tasks retry scaled equivalences [] = []
  apply_tasks retry scaled equivalences (o ∷ os) =
      apply_task retry scaled equivalences o ∷ apply_tasks retry scaled equivalences os

  -- The pool behind that loop; nothing has run yet.
  unfoldable pub started :
      Retry W C (Result (Unit {0}))
      → ScaledObjects
      → Equivalences
      → List (Object C)
      → W
      → Pool W (Result (Unit {0}))
  unfolding apply_tasks
  started retry scaled equivalences os w = record {
    tasks = apply_tasks retry scaled equivalences os;
    received = [];
    world = w;
  }
