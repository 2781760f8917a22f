-- ===== src/Reconciler/Applying.antt =====
-- pkg/controller/managedresource/reconciler.go: applyNewResources. The goroutines, one for each
-- object, run one after the other in the order of the objects; in Concurrent they run side by side.
use gardener_resource_manage.Prelude.{
  String, Bool, true, false, ◌&&◌, ◌||◌, Option, none, some, List, [], ◌∷◌, ◌++◌,
}
use gardener_resource_manage.Prelude.Tests.{if◌then◌else◌, string_eq}
use gardener_resource_manage.Prelude.Dict.{delete}
use gardener_resource_manage.Errors.{
  Error, Result, ok, err, errorf, quoted, is_conflict, is_invalid, is_not_found, ◌+++◌,
}
use gardener_resource_manage.Exec.{Exec}
use gardener_resource_manage.Api.Types.{StringMap, ObjectReference}
use gardener_resource_manage.Objects.{Unstructured, get_annotations, set_annotations, Scheme}
use gardener_resource_manage.Merge.{merge, description_annotation}
use gardener_resource_manage.Equivalences.{Equivalences}
use gardener_resource_manage.Utils.CreateOrUpdate.{
  OperationResult, ObjectClient, Written, typed_create_or_update,
}
use gardener_resource_manage.Reconciler.Annotations.{
  ignore, delete_on_invalid_update, unstructured_to_string,
}
use gardener_resource_manage.Reconciler.Labels.{Nested, inject_labels}
use gardener_resource_manage.Reconciler.Scaling.{
  Autoscalers, ScaledObjects, compute_all_scaled_object_keys, is_scaled,
}
pub mod Laws
pub mod Deletions
pub mod Concurrent

-- The struct `object`; `old_labels` and `old_annotations` are what the code uses of oldInformation.
pub record Object (C : Type 0) : Type 0 where
  pub obj : Unstructured C
  pub old_labels : StringMap
  pub old_annotations : StringMap
  pub force_overwrite_labels : Bool
  pub force_overwrite_annotations : Bool

-- What the goroutines share.
pub record Applier (W C T V : Type 0) : Type 0 where
  pub client : ObjectClient W C T
  pub nested : Nested C V
  pub scheme : Scheme C
  pub autoscalers : W → Autoscalers
  pub always_update : Bool
  pub retry_on_conflict :
      Exec (W × (Unstructured C × Unstructured C)) (Unit {0})
      → Exec (W × (Unstructured C × Unstructured C)) (Unit {0})

module _ {C : Type 0} where
  unfoldable pub without_description : Unstructured C → Unstructured C
  without_description o = elim (get_annotations o) [
    | none ↦ o
    | some annotations ↦ set_annotations (some (delete description_annotation annotations)) o
  ]

module _ {W C T V : Type 0} (a : Applier W C T V) (origin : String) (labels : StringMap) where
  abbrev pub merged :
      Object C → Unstructured C → Unstructured C → Bool → Bool → Result (Unstructured C)
  merged o desired current horizontally vertically =
      merge a.scheme origin desired current o.force_overwrite_labels o.old_labels
        o.force_overwrite_annotations o.old_annotations horizontally vertically

  abbrev pub with_current :
      Unstructured C
      → Unstructured C
      → Result (Unstructured C)
      → Result (Unit {0}) × (Unstructured C × Unstructured C)
  with_current desired current (ok new) = (ok tt, (desired, new))
  with_current desired current (err e) = (err e, (desired, current))

  abbrev pub injected_and_merged :
      Object C
      → Bool
      → Bool
      → Unstructured C
      → Unstructured C
      → Result (Unstructured C)
      → Result (Unit {0}) × (Unstructured C × Unstructured C)
  injected_and_merged o h v desired current (err e) = (
    err (
        errorf (
          "error injecting labels into object "
          +++ (quoted (unstructured_to_string o.obj) +++ (": " +++ e.message)))),
    (desired, current),
  )
  injected_and_merged o h v desired current (ok desired') =
      with_current desired' current (merged o desired' current h v)

  -- The mutating function; the state is the desired object, to which the labels are written, beside
  -- the current one.
  unfoldable pub mutate : Object C → Bool → Bool → Exec (Unstructured C × Unstructured C) (Unit {0})
  mutate o horizontally vertically (desired, current) =
      if ignore desired
      then (ok tt, (desired, without_description current))
      else injected_and_merged o horizontally vertically desired current
          (inject_labels a.nested desired labels)

  abbrev pub deleted_text : String → Error → Error
  deleted_text resource e = errorf (
      "deleted object "
      +++ (quoted resource
          +++ (" because of 'invalid' update error and 'delete-on-invalid-update' annotation on object ("
              +++ (e.message +++ ")"))))

  abbrev pub deleted_invalid : String → Error → Result (Unit {0}) × W → Result (Unit {0}) × W
  deleted_invalid resource e (ok _, w) = (err (deleted_text resource e), w)
  deleted_invalid resource e (err d, w) =
      if is_not_found d then (err (deleted_text resource e), w) else (
        err (
            errorf (
              "error deleting object "
              +++ (quoted resource +++ (" after 'invalid' update error: " +++ d.message)))),
        w,
      )

  abbrev pub was_updated : OperationResult → Bool
  was_updated OperationResult.updated = true
  was_updated _ = false

  abbrev pub beside : {M : Type 0} → M → Result (Unit {0}) × W → Result (Unit {0}) × (W × M)
  beside m (r, w) = (r, (w, m))

  unfoldable pub after_apply :
      String
      → Written W C (Unstructured C)
      → Result (Unit {0}) × (W × (Unstructured C × Unstructured C))
  after_apply resource ((op, ok _), s) = (ok tt, s)
  after_apply resource ((op, err e), (w, (desired, current))) =
      if is_conflict e
      then (err e, (w, (desired, current)))
      else if is_invalid e && was_updated op && delete_on_invalid_update current
      then beside (desired, current) (deleted_invalid resource e (a.client.delete current w))
      else (
        err (
            errorf
              ("error during apply of object " +++ (quoted resource +++ (": " +++ e.message)))),
        (w, (desired, current)),
      )

  -- One attempt, the function under RetryOnConflict.
  unfoldable pub apply_once :
      Object C → Bool → Bool → Exec (W × (Unstructured C × Unstructured C)) (Unit {0})
  unfolding mutate after_apply
  apply_once o horizontally vertically s =
      after_apply (unstructured_to_string o.obj)
        (typed_create_or_update a.client a.always_update (mutate o horizontally vertically) s)

  -- One goroutine.
  unfoldable pub apply_object : Object C → ScaledObjects → Equivalences → Exec W (Unit {0})
  unfolding apply_once
  apply_object o scaled equivalences w =
      let horizontally = is_scaled o.obj scaled.horizontally equivalences in
      let vertically = is_scaled o.obj scaled.vertically equivalences in
      let (r, s) = a.retry_on_conflict (apply_once o horizontally vertically) (w, (o.obj, o.obj)) in
      (r, s.0)

  abbrev pub error_of : Result (Unit {0}) → List Error
  error_of (ok _) = []
  error_of (err e) = e ∷ []

  -- The errors of all goroutines.
  unfoldable pub apply_objects : ScaledObjects → Equivalences → List (Object C) → W → List Error × W
  unfolding apply_object
  apply_objects scaled equivalences [] w = ([], w)
  apply_objects scaled equivalences (o ∷ os) w =
      let first = apply_object o scaled equivalences w in
      let rest = apply_objects scaled equivalences os first.1 in
      (error_of first.0 ++ rest.0, rest.1)

  abbrev pub after_scaled :
      Equivalences → List (Object C) → Result ScaledObjects → W → List Error × W
  after_scaled equivalences os (ok scaled) w = apply_objects scaled equivalences os w
  after_scaled equivalences os (err e) w =
      (errorf ("failed to compute all HPA and HVPA target ref object keys: " +++ e.message) ∷ [], w)

  -- The errors that the returned error lists; none where it is nil.
  unfoldable pub apply_new_resources : List (Object C) → Equivalences → W → List Error × W
  unfolding apply_objects
  apply_new_resources os equivalences w =
      after_scaled equivalences os (compute_all_scaled_object_keys (a.autoscalers w)) w
