-- ===== src/Reconciler/Run.antt =====
-- pkg/controller/managedresource/reconciler.go: Reconcile, reconcile and delete.
use gardener_resource_manage.Prelude.{
  ℕ, String, Bool, true, false, not, ◌&&◌, ◌||◌, Option, none, some, List, [], ◌∷◌, ◌++◌,
}
use gardener_resource_manage.Prelude.Tests.{Eq, ◌==◌, string_eq, if◌then◌else◌}
use gardener_resource_manage.Prelude.Lists.{is_empty}
use gardener_resource_manage.Prelude.Dict.{Dict, is_some}
use gardener_resource_manage.Sorting.{sort_object_references}
use gardener_resource_manage.ErrorLists.{new_error_format_func_with_prefix}
use gardener_resource_manage.Errors.{Error, Result, ok, err, errorf, is_not_found, ◌+++◌}
use gardener_resource_manage.Exec.{Exec, pure, raise, wrap, catch, ◌>>=◌, ◌>>◌}
use gardener_resource_manage.Api.Types.{
  Time, GroupVersionKind, ManagedResource, ManagedResourceCondition, ObjectReference,
  resources_applied, resources_healthy, condition_true, condition_false, condition_unknown,
  condition_progressing, apply_succeeded, apply_failed, apply_progressing, decoding_failed,
  deletion_failed, deletion_pending, health_checks_pending,
}
use gardener_resource_manage.Api.Conditions.{get_or_init_condition, updated_condition}
use gardener_resource_manage.Filter.{ClassFilter, active}
use gardener_resource_manage.Equivalences.{Equivalences, new_equivalences, no_equivalences}
use gardener_resource_manage.ObjectIndex.{ObjectIndex, new_object_index}
use gardener_resource_manage.Utils.Finalizers.{Finalizing, ensure_finalizer, delete_finalizer}
use gardener_resource_manage.Reconciler.Annotations.{origin}
use gardener_resource_manage.Reconciler.Cleaner.{TargetClient}
use gardener_resource_manage.Reconciler.Cleaning.{clean_old_resources}
use gardener_resource_manage.Reconciler.Applying.{Applier, Object, apply_new_resources}
use gardener_resource_manage.Reconciler.Control.{
  Requeue, done, again, after, StatusClient, Run, try_update_conditions, try_update_status,
  no_status, on_world, total, reads,
}
use gardener_resource_manage.Reconciler.Decoding.{
  Mapping, Document, Decoding, Decoded, DecodingError, add_secret, decoding_error_string,
}
use gardener_resource_manage.Reconciler.Steps.{
  Reconciler, flag, status_of, try_conditions, updated, read_secrets, progress,
}
pub mod Laws
pub mod Reading
pub mod Finishing
pub mod Success
pub mod Settling

-- `%v` of a list of decoding errors.
abbrev spaced : List DecodingError → String
spaced [] = ""
spaced (d ∷ ds) = " " +++ (decoding_error_string d +++ spaced ds)

unfoldable pub decoding_texts : List DecodingError → String
unfolding decoding_error_string
decoding_texts [] = "[]"
decoding_texts (d ∷ ds) = "[" +++ (decoding_error_string d +++ (spaced ds +++ "]"))

module _ {W C T V : Type 0} (r : Reconciler W C T V) where
  abbrev pub verdict : Bool → String → Run W Requeue
  verdict true text = pure (after 5)
  verdict false text = raise (errorf text)

  abbrev pub clean_status : Bool → String
  clean_status pending = if pending then condition_progressing else condition_false

  abbrev pub clean_reason : Bool → String
  clean_reason pending = if pending then deletion_pending else deletion_failed

  unfoldable pub clean_failed : ManagedResourceCondition → Bool → String → Run W Requeue
  unfolding updated try_conditions
  clean_failed applied pending text =
      updated r applied (clean_status pending) (clean_reason pending) text >>= λ c.
      try_conditions r (c ∷ []) >> verdict pending text

  abbrev pub clean : ObjectIndex → Run W (Bool × List Error)
  clean index = total (λ mr w. clean_old_resources r.target index mr w)

  -- cleanOldResources and what both of its callers do with its results; `rest` is the code behind.
  unfoldable pub cleaned : ObjectIndex → ManagedResourceCondition → Run W Requeue → Run W Requeue
  unfolding clean_failed
  cleaned index applied rest = clean index >>= λ out.
      if is_empty out.1
      then rest
      else clean_failed applied out.0
          (new_error_format_func_with_prefix "Could not clean all old resources" out.1)

  unfoldable pub outcome :
      List DecodingError → ManagedResourceCondition → Run W ManagedResourceCondition
  outcome errors applied =
      if is_empty errors
      then updated r applied condition_true apply_succeeded "All resources are applied."
      else updated r applied condition_false decoding_failed
          ("Could not decode all new resources: " +++ decoding_texts errors)

  abbrev pub record_status : List ObjectReference → List ManagedResourceCondition → Run W (Unit {0})
  record_status references conditions s =
      wrap no_status (try_update_status (status_of r s.1) references conditions) s

  unfoldable pub finish :
      List ObjectReference → List DecodingError → ManagedResourceCondition → Run W Requeue
  unfolding outcome
  finish references errors applied = outcome errors applied >>= λ c.
      record_status references (c ∷ []) >> pure (after r.sync_period)

  abbrev pub applying : String → Equivalences → Decoded C → Run W (List Error)
  applying origin equivalences s =
      total (λ mr w.
        apply_new_resources r.applier origin mr.spec.inject_labels s.objects equivalences w)

  unfoldable pub apply_failure : ManagedResourceCondition → String → Run W Requeue
  unfolding updated try_conditions
  apply_failure applied text = updated r applied condition_false apply_failed text >>= λ c.
      try_conditions r (c ∷ []) >> raise (errorf ("could not apply all new resources: " +++ text))

  unfoldable pub apply :
      String
      → Equivalences
      → List ObjectReference
      → Decoded C
      → ManagedResourceCondition
      → Run W Requeue
  unfolding finish apply_failure
  apply origin equivalences references s applied = applying origin equivalences s >>= λ errors.
      if is_empty errors
      then finish references s.errors applied
      else apply_failure applied
          (new_error_format_func_with_prefix "Could not apply all new resources" errors)

  abbrev pub decoding : W → ManagedResource → Decoding C
  decoding w mr = record {
    mapping = r.mapping w;
    decode = r.decode;
    force_overwrite_labels = flag mr.spec.force_overwrite_labels;
    force_overwrite_annotations = flag mr.spec.force_overwrite_annotations;
    inject_labels = mr.spec.inject_labels;
  }

  -- What reconcile does once the finalizer is there.
  unfoldable pub with_finalizer : Run W Requeue
  unfolding read_secrets progress cleaned apply
  with_finalizer (w, mr) =
      let equivalences = new_equivalences mr.spec.equivalences in
      let index = new_object_index mr.status.resources equivalences in
      let applied =
        get_or_init_condition ((status_of r mr).now w) mr.status.conditions resources_applied in
      (read_secrets r (decoding w mr) applied mr.spec.secret_refs
            (record { objects = []; references = []; index = index; errors = [] })
          >>= λ s. progress r (sort_object_references r.sort s.references) applied >>= λ c.
              cleaned s.index c (
                apply (origin r.cluster_id mr) equivalences
                  (sort_object_references r.sort s.references) s c))
        (w, mr)

  unfoldable pub reconcile : Run W Requeue
  unfolding with_finalizer
  reconcile = ensure_finalizer r.finalizing r.class.finalizer >> with_finalizer

  abbrev pub not_removed : Error → Error
  not_removed e = errorf ("error removing finalizer from ManagedResource: " +++ e.message)

  unfoldable pub remove_finalizers : Run W Requeue
  remove_finalizers =
      wrap not_removed (delete_finalizer r.finalizing r.class.finalizer) >> pure done

  unfoldable pub kept_deletion : ManagedResourceCondition → String
  kept_deletion c =
      if c.reason == deletion_pending || c.reason == deletion_failed
      then c.message
      else "The resources are currently being deleted."

  -- Deletes the old objects, and then the finalizer.
  unfoldable pub cleared : ManagedResourceCondition → List ObjectReference → Run W Requeue
  unfolding cleaned remove_finalizers kept_deletion updated try_conditions
  cleared applied resources =
      updated r applied condition_progressing deletion_pending (kept_deletion applied) >>= λ c.
      try_conditions r (c ∷ [])
      >> cleaned (new_object_index resources no_equivalences) c remove_finalizers

  unfoldable pub delete : Run W Requeue
  unfolding cleared
  delete (w, mr) =
      if flag mr.spec.keep_objects
      then remove_finalizers (w, mr)
      else cleared
          (get_or_init_condition ((status_of r mr).now w) mr.status.conditions resources_applied)
          mr.status.resources (w, mr)

  -- The choice of Reconcile, by the time of the deletion and what the filter says.
  abbrev pub decided : Option Time → Bool × Bool → Run W Requeue
  decided deleted (action, responsible) s =
      if is_some deleted || (action && not responsible)
      then delete s
      else if responsible && not action
      then (ok again, s)
      else reconcile s

  unfoldable pub dispatch : Run W Requeue
  unfolding reconcile delete
  dispatch (w, mr) = decided mr.deletion_timestamp (active r.class mr) (w, mr)

  abbrev pub fetched : Result ManagedResource × W → Result Requeue × W
  fetched (ok mr, w) = let (result, s) = dispatch (w, mr) in (result, s.0)
  fetched (err e, w) =
      if is_not_found e
      then (ok done, w)
      else (err (errorf ("could not fetch ManagedResource: " +++ e.message)), w)

  -- Reconcile, for a request with a namespace and a name.
  unfoldable pub reconcile_request : String → String → Exec W Requeue
  unfolding dispatch
  reconcile_request namespace name w = fetched (r.get namespace name w)
