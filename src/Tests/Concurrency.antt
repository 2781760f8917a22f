-- ===== src/Tests/Concurrency.antt =====
-- Two goroutines of cleanOldResources: the one for the second object runs to its end first.
use gardener_resource_manage.Prelude.{
  ℕ, ◌+◌, ◌*◌, ◌≤◌, false, not, none, List, [], ◌∷◌, ◌≡◌, refl, ◌⊎◌,
}
use gardener_resource_manage.Prelude.Lists.{contains, All, is_empty, length}
use gardener_resource_manage.Prelude.Tests.{string_eq}
use gardener_resource_manage.Prelude.Dict.{insert, lookup}
use gardener_resource_manage.Keys.{object_key_by_reference}
use gardener_resource_manage.Reconciler.Annotations.{keep_object, annotation_exists_and_value_true}
use gardener_resource_manage.Api.Types.{ManagedResource, group_kind_beq}
use gardener_resource_manage.Objects.{Unstructured}
use gardener_resource_manage.ObjectIndex.{new_object_index, is_found}
use gardener_resource_manage.Reconciler.Cleaning.{Output, collect}
use gardener_resource_manage.Reconciler.Cleaning.Deletions.{Deletable, logged}
use gardener_resource_manage.Reconciler.Cleaning.Concurrent.{clean_task, clean_tasks, started}
use gardener_resource_manage.Reconciler.Cleaning.Concurrent.Interleaved.{
  ByOthers, cleaning_interleaved,
}
use gardener_resource_manage.Reconciler.Cleaning.Concurrent.Bounded.{lost, cleaning_terminates}
use gardener_resource_manage.Goroutines.{Pool, Step, Schedule, idle, steps, others, calls, sends}
use gardener_resource_manage.Tests.Data.{resource_of}
use gardener_resource_manage.Tests.Reconciling.{target, mr, index}

-- Another client changes the ManagedResource behind the first call.
interleaving :
    (q : Pool (ManagedResource × List (Unstructured ℕ)) Output) × Schedule ByOthers
      (started (logged target) false index (mr, []))
      4
      q
unfolding started clean_tasks clean_task is_found new_object_index insert object_key_by_reference
    contains keep_object annotation_exists_and_value_true lookup group_kind_beq
interleaving = (
  _,
  steps
      (steps
        (steps
          (others (resource_of none ("other" ∷ []) [], []) (steps idle (calls 1 _ _ refl)) refl)
          (calls 0 _ _ refl))
        (calls 1 _ _ refl))
      (sends 1 _ refl),
)

cleaning_interleaved_example :
    All (Deletable target index) interleaving.0.world.1
    × ((collect interleaving.0.received).0 ≡ not (is_empty (collect interleaving.0.received).1))
cleaning_interleaved_example = cleaning_interleaved target index false mr interleaving.1

cleaning_terminates_example :
    (4 ≤ 5 * lost index index.index)
    × ((interleaving.0.tasks ≡ [])
        ⊎ ((q' : Pool (ManagedResource × List (Unstructured ℕ)) Output) × Step interleaving.0 q'))
    × (length interleaving.0.tasks + length interleaving.0.received ≡ lost index index.index)
cleaning_terminates_example =
    cleaning_terminates (logged target) false index (mr, []) interleaving.1
