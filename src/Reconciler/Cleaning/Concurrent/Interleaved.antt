-- ===== src/Reconciler/Cleaning/Concurrent/Interleaved.antt =====
-- What cleanOldResources deletes and reports in every schedule of its goroutines, whatever other
-- clients do to the world in between.
use gardener_resource_manage.Prelude.{
  ℕ, zero, suc, String, Bool, true, false, not, ◌||◌, List, [], ◌∷◌, ◌≡◌, refl, inl, inr, arith,
}
use gardener_resource_manage.Prelude.Tests.{◌==◌, string_eq, Bool-cases}
use gardener_resource_manage.Prelude.Lists.{contains, All, All-own, is_empty}
use gardener_resource_manage.Prelude.Dict.{Dict}
use gardener_resource_manage.Errors.{Result, ok, err}
use gardener_resource_manage.Api.Types.{ObjectReference, group_kind_eq}
use gardener_resource_manage.Objects.{Unstructured, StatefulSet, group_kind}
use gardener_resource_manage.Merge.{gk}
use gardener_resource_manage.ObjectIndex.{ObjectIndex, is_found}
use gardener_resource_manage.Reconciler.Annotations.{keep_object}
use gardener_resource_manage.Reconciler.Cleaner.{TargetClient}
use gardener_resource_manage.Reconciler.Cleaning.{Output, resource_text, collect}
use gardener_resource_manage.Reconciler.Cleaning.Laws.{
  IsReport, gone_or_failure-IsReport, collect_pending,
}
use gardener_resource_manage.Reconciler.Cleaning.Deletions.{logged, IsOld, Deletable}
use gardener_resource_manage.Goroutines.{Task, Pool, Schedule}
use gardener_resource_manage.Goroutines.Laws.{Safe, Schedule-IsSafe}
use gardener_resource_manage.Reconciler.Cleaning.Concurrent.{
  answered, delete_task, claims_removed, claims_listed, claims_task, converted_task,
  stateful_set_task, cleanup_task, object_task, clean_task, clean_tasks, started,
}

-- Other clients change the world; what this one has deleted stays in its log.
abbrev pub ByOthers : {W L : Type 0} → W × L → W × L → Type 0
ByOthers s s' = s.1 ≡ s'.1

module _ {W C : Type 0} (client : TargetClient W C) (index : ObjectIndex) (delete_pvcs : Bool) where
  abbrev Logged : W × List (Unstructured C) → Type 0
  Logged s = All (Deletable client index) s.1

  abbrev IsSound : Task (W × List (Unstructured C)) Output → Type 0
  IsSound t = Safe Logged IsReport t

  answered-IsSound :
      (resource : String) (r : Result (Unit {0}))
      → IsSound (answered (logged client) delete_pvcs resource r)
  answered-IsSound resource (err e) = gone_or_failure-IsReport resource e
  answered-IsSound resource (ok _) = λ h. ground arith

  -- In a section on an object that may be deleted.
  module _ (resource : String) (o : Unstructured C) (may : Deletable client index o) where
    delete_task-IsSound : IsSound (delete_task (logged client) delete_pvcs resource o)
    delete_task-IsSound s inv =
        ((may, inv), answered-IsSound resource (client.delete (contains o.gvk.group _) o s.0).0)

    claims_removed-IsSound :
        (r : Result (Unit {0})) → IsSound (claims_removed (logged client) delete_pvcs resource o r)
    claims_removed-IsSound (err e) = λ h. ground arith
    claims_removed-IsSound (ok _) = delete_task-IsSound

    claims_listed-IsSound :
        (s : StatefulSet C) (r : Result ℕ)
        → IsSound (claims_listed (logged client) delete_pvcs resource o s r)
    claims_listed-IsSound s (err e) = λ h. ground arith
    claims_listed-IsSound s (ok zero) = delete_task-IsSound
    claims_listed-IsSound s (ok (suc n)) = λ v inv.
        (inv, claims_removed-IsSound (client.delete_claims s.namespace s.match_labels v.0).0)

    claims_task-IsSound :
        (templates : List C) (s : StatefulSet C)
        → IsSound (claims_task (logged client) delete_pvcs resource o templates s)
    claims_task-IsSound [] s = delete_task-IsSound
    claims_task-IsSound (c ∷ cs) s = λ v inv.
        (inv, claims_listed-IsSound s (client.list_claims s.namespace s.match_labels v.0).0)

    converted_task-IsSound :
        (r : Result (StatefulSet C))
        → IsSound (converted_task (logged client) delete_pvcs resource o r)
    converted_task-IsSound (ok s) = claims_task-IsSound s.volume_claim_templates s
    converted_task-IsSound (err e) = λ h. ground arith

    stateful_set_task-IsSound :
        (b : Bool) → IsSound (stateful_set_task (logged client) delete_pvcs b resource o)
    stateful_set_task-IsSound true = converted_task-IsSound (client.to_stateful_set o)
    stateful_set_task-IsSound false = delete_task-IsSound

    cleanup_task-IsSound : IsSound (cleanup_task (logged client) delete_pvcs resource o)
    cleanup_task-IsSound =
        elim (Bool-cases (
          group_kind o == gk "apps" "StatefulSet"
          || group_kind o == gk "extensions" "StatefulSet")) [
            | inl set ↦ rw set (stateful_set_task-IsSound delete_pvcs)
            | inr else_kind ↦ rw else_kind delete_task-IsSound
          ]

  object_task-IsSound :
      (ref : ObjectReference) (w : W) (r : Result (Unstructured C))
      → IsOld client index ref
      → is_found index ref ≡ false
      → (client.get ref w).0 ≡ r
      → IsSound (object_task (logged client) delete_pvcs (resource_text ref) r)
  object_task-IsSound ref w (err e) old lost read = gone_or_failure-IsReport (resource_text ref) e
  object_task-IsSound ref w (ok o) old lost read = elim (Bool-cases (keep_object o)) [
    | inl kept ↦ rw kept (λ h. refl)
    | inr other_object ↦
        rw other_object
          (cleanup_task-IsSound (resource_text ref) o (other_object, (ref, w, old, lost, read)))
  ]

  clean_task-IsSound :
      (ref : ObjectReference)
      → IsOld client index ref
      → is_found index ref ≡ false
      → IsSound (clean_task (logged client) delete_pvcs ref)
  unfolding clean_task
  clean_task-IsSound ref old lost s inv =
      (inv, object_task-IsSound ref s.0 (client.get ref s.0).0 old lost refl)

  clean_tasks-IsSound :
      (objects : Dict String ObjectReference)
      → All (λ x. IsOld client index x.1) objects
      → All IsSound (clean_tasks (logged client) delete_pvcs index objects)
  unfolding clean_tasks
  clean_tasks-IsSound [] olds = tt
  clean_tasks-IsSound ((key, ref) ∷ objects) (old, olds) = elim (Bool-cases (is_found index ref)) [
    | inl found ↦ rw (found, clean_tasks) (clean_tasks-IsSound objects olds)
    | inr lost ↦
        rw (lost, clean_tasks) (clean_task-IsSound ref old lost, clean_tasks-IsSound objects olds)
  ]

  -- In every schedule of the goroutines of cleanOldResources, with any changes by other clients
  -- between the calls: Delete was called only with objects that were read for a reference of the
  -- index of old objects that was not found again and that do not ask to be kept, and of the results
  -- received so far, in whatever order, there are errors exactly if a deletion is pending.
  pub cleaning_interleaved :
      (w : W) {n : ℕ} {q : Pool (W × List (Unstructured C)) Output}
      → Schedule ByOthers (started (logged client) delete_pvcs index (w, [])) n q
      → All (Deletable client index) q.world.1
        × ((collect q.received).0 ≡ not (is_empty (collect q.received).1))
  unfolding started
  cleaning_interleaved w schedule =
      let safe =
        Schedule-IsSafe Logged IsReport (λ s s' same inv. rw same at inv)
          (record {
            tasks = clean_tasks-IsSound index.index (All-own (λ x. x.1) index.index);
            received = tt;
            world = tt;
          })
          schedule in
      (safe.world, collect_pending _ safe.received)
