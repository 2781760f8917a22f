-- ===== src/Reconciler/Run/Success.antt =====
-- What reconcile has done when it does not fail and does not ask to be run again in five seconds.
use gardener_resource_manage.Prelude.{Bool, List, [], ◌≡◌}
use gardener_resource_manage.Prelude.Tests.{string_eq}
use gardener_resource_manage.Sorting.{sort_object_references}
use gardener_resource_manage.Errors.{ok}
use gardener_resource_manage.Api.Types.{
  resources_applied, ManagedResource, ManagedResourceCondition, ObjectReference,
}
use gardener_resource_manage.Api.Conditions.{get_or_init_condition}
use gardener_resource_manage.ObjectIndex.{new_object_index}
use gardener_resource_manage.Equivalences.{new_equivalences}
use gardener_resource_manage.Utils.Update.{IsServer}
use gardener_resource_manage.Reconciler.Annotations.{origin}
use gardener_resource_manage.Reconciler.Cleaning.{clean_old_resources}
use gardener_resource_manage.Reconciler.Decoding.{Decoded}
use gardener_resource_manage.Reconciler.Decoding.Laws.{IsMatched}
use gardener_resource_manage.Reconciler.Steps.{Reconciler, status_of, progress}
use gardener_resource_manage.Reconciler.Run.{decoding}
use gardener_resource_manage.Reconciler.Run.Laws.{IsRecorded}
use gardener_resource_manage.Reconciler.Run.Reading.{Read}
use gardener_resource_manage.Reconciler.Run.Finishing.{Completed}

module _ {W C T V : Type 0} (r : Reconciler W C T V) where
  module _ (held : W → ManagedResource)
      (server : (mr : ManagedResource) (references : List ObjectReference)
          (c : ManagedResourceCondition)
        → IsServer (status_of r mr).access held (IsRecorded r references c)) where
    -- The course of a run that has read the ManagedResource as in `start`: one step after the other,
    -- each from the world that the one before has left.
    pub record Reconciled (start s' : W × ManagedResource) : Type 0 where
      pub decoded : Decoded C
      pub condition : ManagedResourceCondition
      pub pending : Bool
      pub after_read : W
      pub after_progress : W × ManagedResource
      pub after_clean : W
      -- All secrets of the spec are read, from the index of the old objects of the status on.
      pub reads :
          Read r
            (decoding r start.0 start.1)
            start.1
            start.1.spec.secret_refs
            start.0
            (record {
              objects = [];
              references = [];
              index =
                  new_object_index start.1.status.resources
                    (new_equivalences start.1.spec.equivalences);
              errors = [];
            })
            decoded
            after_read
      -- The references are those of the objects, and they are what is marked in that index.
      pub matched :
          IsMatched
            (decoding r start.0 start.1)
            (new_object_index start.1.status.resources (new_equivalences start.1.spec.equivalences))
            decoded
      pub progresses :
          progress r
            (sort_object_references r.sort decoded.references)
            (get_or_init_condition
              ((status_of r start.1).now start.0)
              start.1.status.conditions
              resources_applied)
            (after_read, start.1)
          ≡ (ok condition, after_progress)
      -- What the marked index has not is cleaned without an error.
      pub cleans :
          clean_old_resources r.target decoded.index after_progress.1 after_progress.0
          ≡ ((pending, []), after_clean)
      pub completes :
          Completed r held server
            (origin r.cluster_id start.1)
            (new_equivalences start.1.spec.equivalences)
            decoded
            (after_clean, after_progress.1)
            s'
