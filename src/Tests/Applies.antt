-- ===== src/Tests/Applies.antt =====
-- Two goroutines of applyNewResources, the first of which meets another one between its calls.
use gardener_resource_manage.Prelude.{
  ℕ, ◌+◌, Bool, true, not, none, List, [], ◌∷◌, ◌≡◌, refl, arith,
}
use gardener_resource_manage.Prelude.Tests.{if◌then◌else◌}
use gardener_resource_manage.Prelude.Lists.{All, Any, length}
use gardener_resource_manage.Errors.{Result, ok, err, is_conflict}
use gardener_resource_manage.Api.Types.{ManagedResource}
use gardener_resource_manage.Objects.{Unstructured}
use gardener_resource_manage.Equivalences.{no_equivalences}
use gardener_resource_manage.Utils.CreateOrUpdate.Writes.{Call}
use gardener_resource_manage.Prelude.Dict.{lookup}
use gardener_resource_manage.Reconciler.Annotations.{ignore, annotation_exists_and_value_true}
use gardener_resource_manage.Reconciler.Scaling.{ScaledObjects}
use gardener_resource_manage.Reconciler.Applying.{mutate}
use gardener_resource_manage.Reconciler.Applying.Deletions.{with_log}
use gardener_resource_manage.Reconciler.Applying.Concurrent.{
  Next, Attempt, Retry, Retries, tried, attempt_task, apply_task, apply_tasks, started,
}
use gardener_resource_manage.Reconciler.Applying.Concurrent.Writes.{IsFor}
use gardener_resource_manage.Reconciler.Applying.Concurrent.Interleaved.{applying_interleaved}
use gardener_resource_manage.Reconciler.Cleaning.Concurrent.Interleaved.{ByOthers}
use gardener_resource_manage.Goroutines.{Pool, Schedule, idle, steps, others, calls, sends}
use gardener_resource_manage.Tests.Data.{resource_of}
use gardener_resource_manage.Tests.Reconciling.{applier}
use gardener_resource_manage.Tests.Runs.{applied_object}

-- A second attempt behind a conflict, and no third.
abbrev ends : {C : Type 0} → Result (Unit {0}) → Unstructured C × Unstructured C → Bool
ends (ok _) s = true
ends (err e) s = not (is_conflict e)

abbrev twice : {W C A : Type 0} → Retry W C A
twice attempt s next = attempt s (λ r s'. if ends r s' then next r s' else attempt s' next)

twice-Retries :
    {W C A : Type 0} (attempt : Attempt W C A) (s : Unstructured C × Unstructured C)
    (next : Next W C A)
    → Retries attempt next s (twice attempt s next)
twice-Retries attempt s next =
    tried s (λ r s'. if ends r s' then next r s' else attempt s' next) ends (λ r s' e. rw e refl)
      (λ r s' e. rw e (tried s' next (λ r s. true) (λ r s e. refl) (λ r s e. ground arith)))

abbrev nothing_scaled : ScaledObjects
nothing_scaled = record { horizontally = []; vertically = [] }

interleaving :
    (q : Pool (ManagedResource × List (Call ℕ)) (Result (Unit {0}))) × Schedule ByOthers
      (started
        (with_log applier (λ fn. fn))
        "origin"
        []
        twice
        nothing_scaled
        no_equivalences
        (applied_object ∷ (applied_object ∷ []))
        (resource_of none [] [], []))
      4
      q
unfolding started apply_tasks apply_task attempt_task mutate ignore annotation_exists_and_value_true
    lookup
interleaving = (
  _,
  steps
      (steps
        (steps
          (others (resource_of none ("other" ∷ []) [], []) (steps idle (calls 1 _ _ refl)) refl)
          (calls 0 _ _ refl))
        (calls 1 _ _ refl))
      (sends 1 _ refl),
)

applying_interleaved_example :
    All
      (λ x.
        Any
          (IsFor (with_log applier (λ fn. fn)) "origin" [] nothing_scaled no_equivalences x)
          (applied_object ∷ (applied_object ∷ [])))
      interleaving.0.world.1
    × (length interleaving.0.tasks + length interleaving.0.received ≡ 2)
applying_interleaved_example =
    applying_interleaved applier (λ fn. fn) "origin" [] nothing_scaled no_equivalences twice
      twice-Retries (applied_object ∷ (applied_object ∷ [])) (resource_of none [] []) interleaving.1

-- The update of the second object is in the log.
logged_update : length interleaving.0.world.1 ≡ 1
unfolding interleaving
logged_update = refl
