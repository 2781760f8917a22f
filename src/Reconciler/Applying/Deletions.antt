-- ===== src/Reconciler/Applying/Deletions.antt =====
-- Which objects applyNewResources deletes: a log beside the world takes every write.
use gardener_resource_manage.Prelude.{String, Bool, true, ◌&&◌, List, [], ◌∷◌, ◌≡◌, inl, inr, arith}
use gardener_resource_manage.Prelude.Tests.{Bool-cases}
use gardener_resource_manage.Errors.{Result, ok, err, is_conflict, is_invalid, is_not_found}
use gardener_resource_manage.Exec.{Exec}
use gardener_resource_manage.Api.Types.{StringMap}
use gardener_resource_manage.Objects.{Unstructured}
use gardener_resource_manage.Utils.CreateOrUpdate.{
  OperationResult, Reading, present, absent, Written, typed_create_or_update, read_current,
}
use gardener_resource_manage.Utils.CreateOrUpdate.Writes.{
  Call, created_with, updated_with, deleted_with, logged, Allowed, typed_create_or_update_writes,
}
use gardener_resource_manage.Reconciler.Annotations.{
  delete_on_invalid_update, unstructured_to_string,
}
use gardener_resource_manage.Reconciler.Applying.{
  Object, Applier, mutate, after_apply, was_updated, beside, deleted_invalid, apply_once,
}

-- What goroutines share, with a client that logs.
abbrev pub with_log :
    {W C T V : Type 0}
    → Applier W C T V
    → (Exec ((W × List (Call C)) × (Unstructured C × Unstructured C)) (Unit {0})
        → Exec ((W × List (Call C)) × (Unstructured C × Unstructured C)) (Unit {0}))
    → Applier (W × List (Call C)) C T V
with_log a retry = record {
  client = logged a.client;
  nested = a.nested;
  scheme = a.scheme;
  autoscalers = λ s. a.autoscalers s.0;
  always_update = a.always_update;
  retry_on_conflict = retry;
}

-- The writes of one attempt, the last one first: none; one that is no deletion; or an update, and
-- then the deletion of an object with the annotation.
abbrev pub Justified : {C : Type 0} → List (Call C) → Type 0
Justified [] = Unit
Justified (created_with o ∷ []) = Unit
Justified (updated_with o ∷ []) = Unit
Justified (deleted_with o ∷ (updated_with o' ∷ [])) = delete_on_invalid_update o ≡ true
Justified _ = ⊥

module _ {W C T V : Type 0} (a : Applier W C T V)
    (retry : Exec ((W × List (Call C)) × (Unstructured C × Unstructured C)) (Unit {0})
      → Exec ((W × List (Call C)) × (Unstructured C × Unstructured C)) (Unit {0}))
    (origin : String) (labels : StringMap) (o : Object C) (h v : Bool) where
  abbrev logging : Applier (W × List (Call C)) C T V
  logging = with_log a retry

  abbrev mutation : Exec (Unstructured C × Unstructured C) (Unit {0})
  mutation = mutate logging origin labels o h v

  Allowed-Justified :
      (d c : Unstructured C) (r : Reading C) (op : OperationResult) (log : List (Call C))
      → Allowed a.client a.always_update mutation d c r op log
      → Justified log
  Allowed-Justified d c r OperationResult.unchanged [] w = tt
  Allowed-Justified d c r OperationResult.unchanged (x ∷ xs) w = elim w [ ]
  Allowed-Justified d c absent OperationResult.created (created_with o' ∷ []) w = tt
  Allowed-Justified d c (present e) OperationResult.updated (updated_with o' ∷ []) w = tt
  Allowed-Justified d c r op log w = absurd w

  deletion-Justified :
      (d c deleted : Unstructured C) (r : Reading C) (op : OperationResult) (log : List (Call C))
      → Allowed a.client a.always_update mutation d c r op log
      → was_updated logging origin labels op ≡ true
      → delete_on_invalid_update deleted ≡ true
      → Justified (deleted_with deleted ∷ log)
  deletion-Justified d c deleted (present e) OperationResult.updated (updated_with o' ∷ []) w u g =
      g
  deletion-Justified d c deleted r op log w u g = ground arith

  by_written :
      (text : String) (d c : Unstructured C) (r : Reading C)
      (x : Written (W × List (Call C)) C (Unstructured C))
      → Allowed a.client a.always_update mutation d c r x.0.0 x.1.0.1
      → Justified (after_apply logging origin labels text x).1.0.1
  unfolding after_apply
  by_written text d c r ((op, ok _), s) w = Allowed-Justified d c r op s.0.1 w
  by_written text d c r ((op, err e), ((w, log), (desired, current))) allowed =
      elim (Bool-cases (is_conflict e)) [
        | inl conflict ↦ rw (conflict, after_apply) (Allowed-Justified d c r op log allowed)
        | inr other ↦
            elim (Bool-cases (
              is_invalid e
              && was_updated logging origin labels op
              && delete_on_invalid_update current)) [
                | inl due ↦
                    rw (other, due, after_apply)
                      (by_answer
                        (deletion-Justified d c current r op log allowed (ground arith)
                          (ground arith))
                        (a.client.delete current w))
                | inr kept ↦ rw (other, kept, after_apply) (Allowed-Justified d c r op log allowed)
              ]
      ]
    where
      by_answer :
          Justified (deleted_with current ∷ log)
          → (answer : Result (Unit {0}) × W)
          → Justified
              (beside logging origin labels {M = Unstructured C × Unstructured C}
                (desired, current)
                (deleted_invalid logging origin labels text e
                  (answer.0, (answer.1, deleted_with current ∷ log)))).1.0.1
      by_answer j (ok _, w') = j
      by_answer j (err x, w') = elim (Bool-cases (is_not_found x)) [
        | inl gone ↦ rw (gone, deleted_invalid) j
        | inr failed_again ↦ rw (failed_again, deleted_invalid) j
      ]

  -- An attempt to apply an object writes nothing, creates or updates it, or makes an update and
  -- then deletes an object that has the annotation to be deleted on an invalid update.
  pub apply_once_writes :
      (w : W) (d c : Unstructured C)
      → Justified (apply_once logging origin labels o h v ((w, []), (d, c))).1.0.1
  unfolding apply_once
  apply_once_writes w d c =
      by_written (unstructured_to_string o.obj) d c (read_current a.client c w).0
        (typed_create_or_update (logged a.client) a.always_update mutation ((w, []), (d, c)))
        (typed_create_or_update_writes a.client a.always_update mutation d c w)
