-- ===== src/Reconciler/Cleaning/Concurrent/Bounded.antt =====
-- That the goroutines of cleanOldResources come to an end, and with them the loop over the results.
use gardener_resource_manage.Prelude.{
  ℕ, zero, suc, ◌+◌, ◌*◌, ◌≤◌, String, Bool, true, false, ◌||◌, List, [], ◌∷◌, ◌≡◌, refl, ◌⊎◌, inl,
  inr, arith,
}
use gardener_resource_manage.Prelude.Tests.{◌==◌, string_eq, if◌then◌else◌, Bool-cases}
use gardener_resource_manage.Prelude.Lists.{All, length}
use gardener_resource_manage.Prelude.Dict.{Dict}
use gardener_resource_manage.Errors.{Result, ok, err}
use gardener_resource_manage.Api.Types.{ObjectReference, group_kind_eq}
use gardener_resource_manage.Objects.{Unstructured, StatefulSet, group_kind}
use gardener_resource_manage.Merge.{gk}
use gardener_resource_manage.ObjectIndex.{ObjectIndex, is_found}
use gardener_resource_manage.Reconciler.Annotations.{keep_object}
use gardener_resource_manage.Reconciler.Cleaner.{TargetClient}
use gardener_resource_manage.Reconciler.Cleaning.{Output, resource_text}
use gardener_resource_manage.Goroutines.{Pool, Step, Schedule}
use gardener_resource_manage.Goroutines.Laws.{Calls, progress, Schedule-results, Schedule_bounded}
use gardener_resource_manage.Reconciler.Cleaning.Concurrent.{
  answered, delete_task, claims_removed, claims_listed, claims_task, converted_task,
  stateful_set_task, cleanup_task, object_task, clean_task, clean_tasks, started,
}

-- The number of old references that were not found again.
abbrev pub lost : ObjectIndex → Dict String ObjectReference → ℕ
lost index [] = 0
lost index ((key, ref) ∷ objects) =
    let rest = lost index objects in if is_found index ref then rest else suc rest

module _ {W C : Type 0} (client : TargetClient W C) (delete_pvcs : Bool) where
  answered-Calls :
      (n : ℕ) (resource : String) (r : Result (Unit {0}))
      → Calls n (answered client delete_pvcs resource r)
  answered-Calls n resource (err e) = tt
  answered-Calls n resource (ok _) = tt

  module _ (resource : String) (o : Unstructured C) where
    delete_task-Calls : (n : ℕ) → Calls (suc n) (delete_task client delete_pvcs resource o)
    delete_task-Calls n w = answered-Calls n resource (client.delete _ o w).0

    claims_removed-Calls :
        (r : Result (Unit {0})) → Calls 1 (claims_removed client delete_pvcs resource o r)
    claims_removed-Calls (err e) = tt
    claims_removed-Calls (ok _) = delete_task-Calls 0

    claims_listed-Calls :
        (s : StatefulSet C) (r : Result ℕ)
        → Calls 2 (claims_listed client delete_pvcs resource o s r)
    claims_listed-Calls s (err e) = tt
    claims_listed-Calls s (ok zero) = delete_task-Calls 1
    claims_listed-Calls s (ok (suc n)) =
        λ w. claims_removed-Calls (client.delete_claims s.namespace s.match_labels w).0

    claims_task-Calls :
        (templates : List C) (s : StatefulSet C)
        → Calls 3 (claims_task client delete_pvcs resource o templates s)
    claims_task-Calls [] s = delete_task-Calls 2
    claims_task-Calls (c ∷ cs) s =
        λ w. claims_listed-Calls s (client.list_claims s.namespace s.match_labels w).0

    converted_task-Calls :
        (r : Result (StatefulSet C)) → Calls 3 (converted_task client delete_pvcs resource o r)
    converted_task-Calls (ok s) = claims_task-Calls s.volume_claim_templates s
    converted_task-Calls (err e) = tt

    stateful_set_task-Calls :
        (b : Bool) → Calls 3 (stateful_set_task client delete_pvcs b resource o)
    stateful_set_task-Calls true = converted_task-Calls (client.to_stateful_set o)
    stateful_set_task-Calls false = delete_task-Calls 2

    cleanup_task-Calls : Calls 3 (cleanup_task client delete_pvcs resource o)
    cleanup_task-Calls =
        elim (Bool-cases (
          group_kind o == gk "apps" "StatefulSet"
          || group_kind o == gk "extensions" "StatefulSet")) [
            | inl set ↦ rw set (stateful_set_task-Calls delete_pvcs)
            | inr other ↦ rw other (delete_task-Calls 2)
          ]

  object_task-Calls :
      (resource : String) (r : Result (Unstructured C))
      → Calls 3 (object_task client delete_pvcs resource r)
  object_task-Calls resource (err e) = tt
  object_task-Calls resource (ok o) = elim (Bool-cases (keep_object o)) [
    | inl kept ↦ rw kept tt
    | inr other ↦ rw other (cleanup_task-Calls resource o)
  ]

  clean_tasks-Calls :
      (index : ObjectIndex) (objects : Dict String ObjectReference)
      → All (Calls 4) (clean_tasks client delete_pvcs index objects)
        × (length (clean_tasks client delete_pvcs index objects) ≡ lost index objects)
  unfolding clean_tasks clean_task
  clean_tasks-Calls index [] = (tt, refl)
  clean_tasks-Calls index ((key, ref) ∷ objects) =
      let (calls, count) = clean_tasks-Calls index objects in
      elim (Bool-cases (is_found index ref)) [
        | inl found ↦ rw (found, clean_tasks) (calls, count)
        | inr other ↦
            rw (other, clean_tasks)
              (
                (λ w. object_task-Calls (resource_text ref) (client.get ref w).0, calls),
                omega (arith, count),
              )
      ]

  -- Whatever other clients do, the goroutines make at most five steps for each old object that was
  -- not found again, the result included; until all results are received one of them can go on; and
  -- each object gives one result.
  pub cleaning_terminates :
      (index : ObjectIndex) (w : W) {Other : W → W → Type 0} {n : ℕ} {q : Pool W Output}
      → Schedule Other (started client delete_pvcs index w) n q
      → (n ≤ 5 * lost index index.index)
        × ((q.tasks ≡ []) ⊎ ((q' : Pool W Output) × Step q q'))
        × (length q.tasks + length q.received ≡ lost index index.index)
  unfolding started
  cleaning_terminates index w {q = q} schedule =
      let (calls, count) = clean_tasks-Calls index index.index in
      let bounded = Schedule_bounded 4 calls schedule in
      let results = Schedule-results schedule in (omega arith, progress q, omega arith)
