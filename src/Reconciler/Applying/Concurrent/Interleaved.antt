-- ===== src/Reconciler/Applying/Concurrent/Interleaved.antt =====
-- Which writes applyNewResources makes in every schedule of its goroutines, whatever other clients do
-- to the world in between: a log beside the world takes every write.
use gardener_resource_manage.Prelude.{
  ℕ, ◌+◌, String, Bool, not, ◌&&◌, List, [], ◌∷◌, ◌≡◌, ◌⊎◌, refl, ap, inl, inr, arith,
}
use gardener_resource_manage.Prelude.Tests.{Bool-cases}
use gardener_resource_manage.Prelude.Lists.{All, Any, length}
use mathlib.Core.Path.{subst}
use gardener_resource_manage.Reconciler.Applying.Concurrent.Writes.{
  begun, missing_mutated, present_mutated, answered, HeldBy, IsFor,
}
use gardener_resource_manage.Errors.{Result, ok, err, is_conflict, is_invalid}
use gardener_resource_manage.Exec.{Exec}
use gardener_resource_manage.Api.Types.{StringMap}
use gardener_resource_manage.Objects.{Unstructured}
use gardener_resource_manage.Equivalences.{Equivalences}
use gardener_resource_manage.Utils.CreateOrUpdate.{
  OperationResult, Registration, Reading, present, absent, failed, read_current, read_typed,
  read_untyped, unsupported_type,
}
use gardener_resource_manage.Utils.CreateOrUpdate.Writes.{
  Call, created_with, updated_with, deleted_with,
}
use gardener_resource_manage.Reconciler.Annotations.{
  delete_on_invalid_update, unstructured_to_string,
}
use gardener_resource_manage.Reconciler.Scaling.{ScaledObjects, is_scaled}
use gardener_resource_manage.Reconciler.Applying.{Object, Applier, mutate, was_updated}
use gardener_resource_manage.Reconciler.Applying.Deletions.{with_log}
use gardener_resource_manage.Goroutines.{Task, send, Pool, Schedule}
use gardener_resource_manage.Goroutines.Laws.{Safe, Schedule-IsSafe, Schedule-results}
use gardener_resource_manage.Reconciler.Cleaning.Concurrent.Interleaved.{ByOthers}
use gardener_resource_manage.Reconciler.Applying.Concurrent.{
  Next, Attempt, Retries, tried, Retry, read_task, typed_reading, untyped_reading, answered_task,
  create_task, update_task, reading_task, after_task, attempt_task, apply_task, apply_tasks,
  started,
}

module _ {W C T V : Type 0} (a : Applier W C T V)
    (retry : Exec ((W × List (Call C)) × (Unstructured C × Unstructured C)) (Unit {0})
      → Exec ((W × List (Call C)) × (Unstructured C × Unstructured C)) (Unit {0}))
    (origin : String) (labels : StringMap) (scaled : ScaledObjects)
    (equivalences : Equivalences) where
  abbrev logging : Applier (W × List (Call C)) C T V
  logging = with_log a retry

  typed_read :
      (c : Unstructured C) (w : W × List (Call C))
      → logging.client.registration c.gvk ≡ Registration.registered
      → (read_current logging.client c w).0
        ≡ typed_reading logging origin labels (logging.client.get_typed c w).0
  unfolding read_current
  typed_read c w e = rw (e, read_current) (by_result (logging.client.get_typed c w))
    where
      by_result :
          (r : Result T × (W × List (Call C)))
          → (read_typed logging.client r).0 ≡ typed_reading logging origin labels r.0
      by_result (ok t, w') = refl
      by_result (err x, w') = refl

  untyped_read :
      (c : Unstructured C) (w : W × List (Call C))
      → logging.client.registration c.gvk ≡ Registration.unregistered
      → (read_current logging.client c w).0
        ≡ untyped_reading logging origin labels (logging.client.get c w).0
  unfolding read_current
  untyped_read c w e = rw (e, read_current) (by_result (logging.client.get c w))
    where
      by_result :
          (r : Result (Unstructured C) × (W × List (Call C)))
          → (read_untyped logging.client r).0 ≡ untyped_reading logging origin labels r.0
      by_result (ok t, w') = refl
      by_result (err x, w') = refl

  module _ (P : Call C → Type 0) where
    abbrev Inv : W × List (Call C) → Type 0
    Inv s = All P s.1

    abbrev AnyResult : Result (Unit {0}) → Type 0
    AnyResult r = Unit

    abbrev IsSound : Task (W × List (Call C)) (Result (Unit {0})) → Type 0
    IsSound t = Safe Inv AnyResult t

    module _ (o : Object C)
        (for : (x : Call C) → IsFor logging origin labels scaled equivalences x o → P x)
        (k : Next (W × List (Call C)) C (Result (Unit {0})))
        (sound : (r : Result (Unit {0})) (s : Unstructured C × Unstructured C)
          → HeldBy logging origin labels scaled equivalences o s
          → IsSound (k r s)) where
      abbrev IsHeld : Unstructured C × Unstructured C → Type 0
      IsHeld s = HeldBy logging origin labels scaled equivalences o s

      abbrev h : Bool
      h = is_scaled o.obj scaled.horizontally equivalences

      abbrev v : Bool
      v = is_scaled o.obj scaled.vertically equivalences

      abbrev mutation : Exec (Unstructured C × Unstructured C) (Unit {0})
      mutation = mutate logging origin labels o h v

      abbrev behind : OperationResult → Next (W × List (Call C)) C (Result (Unit {0}))
      behind = after_task logging origin labels (unstructured_to_string o.obj) k

      after_task-IsSound :
          (op : OperationResult) (r : Result (Unit {0})) (s : Unstructured C × Unstructured C)
          → IsHeld s
          → IsSound (behind op r s)
      after_task-IsSound op (ok _) s held = sound (ok tt) s held
      after_task-IsSound op (err e) (d, c) held = elim (Bool-cases (is_conflict e)) [
        | inl conflict ↦ rw conflict (sound (err e) (d, c) held)
        | inr other ↦
            elim (Bool-cases (
              is_invalid e && was_updated logging origin labels op && delete_on_invalid_update c)) [
                | inl due ↦
                    rw (other, due)
                      (λ w inv. (
                        (for (deleted_with c) (ground arith, (d, held)), inv),
                        sound _ (d, c) held,
                      ))
                | inr kept ↦ rw (other, kept) (sound _ (d, c) held)
              ]
      ]

      answered_task-IsSound :
          (op : OperationResult) (d x : Unstructured C) (w : W × List (Call C))
          (r : Result (Unstructured C))
          → IsHeld (d, x)
          → ((logging.client.create x w).0 ≡ r) ⊎ ((logging.client.update x w).0 ≡ r)
          → IsSound (answered_task logging origin labels op d x behind r)
      answered_task-IsSound op d x w (ok answer) held answers =
          after_task-IsSound op (ok tt) (d, answer) (answered d x answer w held answers)
      answered_task-IsSound op d x w (err e) held answers =
          after_task-IsSound op (err e) (d, x) held

      create_task-IsSound :
          (d c : Unstructured C) (w₀ : W × List (Call C))
          (r : Result (Unit {0}) × (Unstructured C × Unstructured C))
          → IsHeld (d, c)
          → (read_current logging.client c w₀).0 ≡ absent
          → mutation (d, c) ≡ r
          → IsSound (create_task logging origin labels behind r)
      create_task-IsSound d c w₀ (err e, s) held read eq =
          after_task-IsSound OperationResult.unchanged (err e) s
            (subst IsHeld (ap (λ x. x.1) eq) (missing_mutated d c w₀ held read))
      create_task-IsSound d c w₀ (ok _, (d', x)) held read eq = λ w inv. (
        (for (created_with x) (d, c, w₀, held, read, (d', eq)), inv),
        answered_task-IsSound OperationResult.created d' x w (logging.client.create x w).0
            (subst IsHeld (ap (λ x. x.1) eq) (missing_mutated d c w₀ held read)) (inl refl),
      )

      update_task-IsSound :
          (d c existing : Unstructured C) (w₀ : W × List (Call C))
          (r : Result (Unit {0}) × (Unstructured C × Unstructured C))
          → IsHeld (d, c)
          → (read_current logging.client c w₀).0 ≡ present existing
          → mutation (d, existing) ≡ r
          → IsSound (update_task logging origin labels existing behind r)
      update_task-IsSound d c existing w₀ (err e, s) held read eq =
          after_task-IsSound OperationResult.unchanged (err e) s
            (subst IsHeld (ap (λ x. x.1) eq) (present_mutated d c existing w₀ held read))
      update_task-IsSound d c existing w₀ (ok _, (d', x)) held read eq =
          let held' : IsHeld (d', x) =
            subst IsHeld (ap (λ x. x.1) eq) (present_mutated d c existing w₀ held read) in
          elim (Bool-cases (not a.always_update && a.client.deep_equal existing x)) [
            | inl same ↦
                rw same (after_task-IsSound OperationResult.unchanged (ok tt) (d', x) held')
            | inr differs ↦ rw differs (λ w inv. (
              (for (updated_with x) (d, c, existing, w₀, held, read, (d', eq)), inv),
              answered_task-IsSound OperationResult.updated d' x w (logging.client.update x w).0
                  held' (inr refl),
            ))
          ]

      reading_task-IsSound :
          (d c : Unstructured C) (w₀ : W × List (Call C)) (r : Reading C)
          → IsHeld (d, c)
          → (read_current logging.client c w₀).0 ≡ r
          → IsSound (reading_task logging origin labels mutation d c behind r)
      reading_task-IsSound d c w₀ (failed e) held read =
          after_task-IsSound OperationResult.unchanged (err e) (d, c) held
      reading_task-IsSound d c w₀ absent held read =
          create_task-IsSound d c w₀ (mutation (d, c)) held read refl
      reading_task-IsSound d c w₀ (present x) held read =
          update_task-IsSound d c x w₀ (mutation (d, x)) held read refl

      read_task-IsSound :
          (d c : Unstructured C) (g : Registration)
          → IsHeld (d, c)
          → logging.client.registration c.gvk ≡ g
          → IsSound (
              read_task logging origin labels c g
                (reading_task logging origin labels mutation d c behind))
      read_task-IsSound d c Registration.registered held e =
          λ w inv. (inv, reading_task-IsSound d c w _ held (typed_read c w e))
      read_task-IsSound d c Registration.unsupported held e =
          after_task-IsSound OperationResult.unchanged (err (unsupported_type c)) (d, c) held
      read_task-IsSound d c Registration.unregistered held e =
          λ w inv. (inv, reading_task-IsSound d c w _ held (untyped_read c w e))

      attempt_task-IsSound :
          (s : Unstructured C × Unstructured C)
          → IsHeld s
          → IsSound (attempt_task logging origin labels o h v s k)
      unfolding attempt_task
      attempt_task-IsSound (d, c) held =
          read_task-IsSound d c (a.client.registration c.gvk) held refl

    Retries-IsSound :
        (H : Unstructured C × Unstructured C → Type 0)
        (attempt : Attempt (W × List (Call C)) C (Result (Unit {0})))
        (next : Next (W × List (Call C)) C (Result (Unit {0})))
        → ((k : Next (W × List (Call C)) C (Result (Unit {0})))
            → ((r : Result (Unit {0})) (s : Unstructured C × Unstructured C)
                → H s
                → IsSound (k r s))
            → (s : Unstructured C × Unstructured C) → H s
            → IsSound (attempt s k))
        → ((r : Result (Unit {0})) (s : Unstructured C × Unstructured C) → H s → IsSound (next r s))
        → {s : Unstructured C × Unstructured C} {t : Task (W × List (Call C)) (Result (Unit {0}))}
        → Retries attempt next s t
        → H s
        → IsSound t
    Retries-IsSound H attempt next keeps sound (tried s go_on is_last last again) held =
        keeps go_on
          (λ r s' held'. elim (Bool-cases (is_last r s')) [
            | inl at_end ↦ rw (last r s' at_end) (sound r s' held')
            | inr more ↦ Retries-IsSound H attempt next keeps sound (again r s' more) held'
          ])
          s held

    module _ (retried : Retry (W × List (Call C)) C (Result (Unit {0})))
        (law : (attempt : Attempt (W × List (Call C)) C (Result (Unit {0})))
            (s : Unstructured C × Unstructured C)
            (next : Next (W × List (Call C)) C (Result (Unit {0})))
          → Retries attempt next s (retried attempt s next)) where
      apply_task-IsSound :
          (o : Object C)
          → ((x : Call C) → IsFor logging origin labels scaled equivalences x o → P x)
          → IsSound (apply_task logging origin labels retried scaled equivalences o)
      unfolding apply_task
      apply_task-IsSound o for =
          let h = is_scaled o.obj scaled.horizontally equivalences in
          let v = is_scaled o.obj scaled.vertically equivalences in
          Retries-IsSound (HeldBy logging origin labels scaled equivalences o)
            (attempt_task logging origin labels o h v) (λ r s. send r)
            (λ k sound s held. attempt_task-IsSound o for k sound s held) (λ r s held. tt)
            (law (attempt_task logging origin labels o h v) (o.obj, o.obj) (λ r s. send r)) begun

      apply_tasks-IsSound :
          (os : List (Object C))
          → ((x : Call C) → Any (IsFor logging origin labels scaled equivalences x) os → P x)
          → All IsSound (apply_tasks logging origin labels retried scaled equivalences os)
      unfolding apply_tasks
      apply_tasks-IsSound [] for = tt
      apply_tasks-IsSound (o ∷ os) for = (
        apply_task-IsSound o (λ x is. for x (inl is)),
        apply_tasks-IsSound os (λ x is. for x (inr is)),
      )

  module _ (retried : Retry (W × List (Call C)) C (Result (Unit {0})))
      (law : (attempt : Attempt (W × List (Call C)) C (Result (Unit {0})))
          (s : Unstructured C × Unstructured C)
          (next : Next (W × List (Call C)) C (Result (Unit {0})))
        → Retries attempt next s (retried attempt s next)) where
    length-apply_tasks :
        (os : List (Object C))
        → length (apply_tasks logging origin labels retried scaled equivalences os) ≡ length os
    unfolding apply_tasks
    length-apply_tasks [] = refl
    length-apply_tasks (o ∷ os) = omega (arith, length-apply_tasks os)

    -- In every schedule of the goroutines of applyNewResources, with any changes by other clients
    -- between the calls, each write is one that a new object asks for: a creation where nothing was
    -- read, of what its mutation makes of the objects that its goroutine can hold; an update with
    -- what it makes of the desired object and the one that was read; or the deletion of a held
    -- object with the annotation to be deleted on an invalid update. And each new object gives one
    -- result. For a retry that calls its function one or more times and goes on with the result of
    -- the last call.
    pub applying_interleaved :
        (os : List (Object C)) (w : W) {n : ℕ} {q : Pool (W × List (Call C)) (Result (Unit {0}))}
        → Schedule ByOthers
            (started logging origin labels retried scaled equivalences os (w, []))
            n
            q
        → All (λ x. Any (IsFor logging origin labels scaled equivalences x) os) q.world.1
          × (length q.tasks + length q.received ≡ length os)
    unfolding started
    applying_interleaved os w schedule =
        let P : Call C → Type 0 = λ x. Any (IsFor logging origin labels scaled equivalences x) os in
        let safe =
          Schedule-IsSafe (Inv P) (AnyResult P) (λ s s' same inv. rw same at inv)
            (record {
              tasks = apply_tasks-IsSound P retried law os (λ x is. is);
              received = tt;
              world = tt;
            })
            schedule in
        let results = Schedule-results schedule in
        (safe.world, omega (arith, results, length-apply_tasks os))
