-- ===== src/Health/Reconciler.antt =====
-- pkg/controller/health/reconciler.go: the health checks of all objects of a ManagedResource, and
-- the condition ResourcesHealthy.
use gardener_resource_manage.Prelude.{
  ℕ, String, Bool, true, false, not, ◌&&◌, ◌||◌, Option, none, some, List, [], ◌∷◌,
}
use gardener_resource_manage.Prelude.Tests.{◌==◌, string_eq, if◌then◌else◌}
use gardener_resource_manage.Prelude.Dict.{is_some}
use gardener_resource_manage.Errors.{Error, Result, ok, err, errorf, is_not_found, ◌+++◌}
use gardener_resource_manage.Exec.{Exec, pure, raise, wrap, catch, ◌>>=◌, ◌>>◌}
use gardener_resource_manage.Api.Types.{
  ManagedResource, ManagedResourceCondition, ObjectReference, GroupVersionKind, resources_applied,
  resources_healthy, condition_true, condition_false, condition_progressing, deletion_pending,
}
use gardener_resource_manage.Api.Conditions.{
  get_condition, get_or_init_condition, updated_condition,
}
use gardener_resource_manage.Filter.{ClassFilter, active}
use gardener_resource_manage.Health.Types.{Check, HealthError}
use gardener_resource_manage.Health.Dispatch.{HealthScheme, check_health}
use gardener_resource_manage.Utils.CreateOrUpdate.{Registration}
use gardener_resource_manage.Reconciler.Control.{
  Requeue, done, after, StatusClient, Run, try_update_conditions, no_status, on_world,
}
pub mod Laws

-- `O` are the objects that the client of the target cluster reads, `conditions_equal` is the
-- semantic equality and `health_text` the text of an error of the checks.
pub record HealthReconciler (W O : Type 0) : Type 0 where
  pub class_filter : ClassFilter
  pub sync_period : ℕ
  pub get : String → String → Exec W ManagedResource
  pub status_client : String → String → StatusClient W
  pub registration : GroupVersionKind → Registration
  pub get_target : ObjectReference → Exec W O
  pub scheme : HealthScheme O
  pub health_text : HealthError → String
  pub conditions_equal : ManagedResourceCondition → ManagedResourceCondition → Bool

-- What the loop over the references comes to.
pub data Verdict : Type 0 where
  all_healthy : Verdict
  stopped : Verdict
  unhealthy : String → String → Verdict
  broken : Error → Verdict

abbrev place : ObjectReference → String
place ref = ref.gvk.kind +++ (" " +++ (ref.name +++ (" in namespace " +++ ref.namespace)))

module _ {W O : Type 0} (r : HealthReconciler W O) where
  abbrev pub status_of : ManagedResource → StatusClient W
  status_of mr = r.status_client mr.namespace mr.name

  abbrev pub missing : ObjectReference → Verdict
  missing ref =
      unhealthy (ref.gvk.kind +++ "Missing") ("Required " +++ (place ref +++ " is missing."))

  abbrev pub failing : ObjectReference → HealthError → Verdict
  failing ref e =
      unhealthy (ref.gvk.kind +++ "Unhealthy")
        ("Required " +++ (place ref +++ (" is unhealthy: " +++ r.health_text e)))

  abbrev pub checked : ObjectReference → (W → Verdict × W) → W → Check → Verdict × W
  checked ref rest w none = rest w
  checked ref rest w (some e) = (failing ref e, w)

  abbrev pub after_get : ObjectReference → (W → Verdict × W) → Result O × W → Verdict × W
  after_get ref rest (ok o, w) = checked ref rest w (check_health r.scheme o)
  after_get ref rest (err e, w) = if is_not_found e then (missing ref, w) else (broken e, w)

  abbrev pub after_new : ObjectReference → (W → Verdict × W) → W → Registration → Verdict × W
  after_new ref rest w Registration.unsupported = (stopped, w)
  after_new ref rest w Registration.registered = after_get ref rest (r.get_target ref w)
  after_new ref rest w Registration.unregistered = after_get ref rest (r.get_target ref w)

  unfoldable pub check_objects : List ObjectReference → W → Verdict × W
  check_objects [] w = (all_healthy, w)
  check_objects (ref ∷ refs) w =
      let rest = check_objects refs in after_new ref rest w (r.registration ref.gvk)

  -- tryUpdateManagedResourceCondition with the error of its callers.
  unfoldable pub try_condition : ManagedResourceCondition → Run W (Unit {0})
  try_condition condition s =
      wrap no_status (try_update_conditions (status_of s.1) (condition ∷ [])) s

  unfoldable pub updated :
      ManagedResourceCondition
      → String
      → String
      → String
      → W × ManagedResource
      → ManagedResourceCondition
  updated condition status reason message s =
      updated_condition ((status_of s.1).now s.0) condition status reason message

  abbrev pub write_healthy : ManagedResourceCondition → ManagedResourceCondition → Run W (Unit {0})
  write_healthy old new s = if r.conditions_equal old new then (ok tt, s) else try_condition new s

  abbrev pub conclude :
      ManagedResourceCondition
      → Verdict × W
      → ManagedResource
      → Result Requeue × (W × ManagedResource)
  conclude healthy (all_healthy, w) mr =
      (write_healthy healthy
            (updated healthy condition_true "ResourcesHealthy" "All resources are healthy." (w, mr))
          >> pure (after r.sync_period))
        (w, mr)
  conclude healthy (stopped, w) mr = (ok done, (w, mr))
  conclude healthy (unhealthy reason message, w) mr =
      (try_condition (updated healthy condition_false reason message (w, mr))
          >> pure (after r.sync_period))
        (w, mr)
  conclude healthy (broken e, w) mr = (err e, (w, mr))

  -- The checks wait until the resources were applied.
  unfoldable pub is_waiting : Option ManagedResourceCondition → Bool
  is_waiting none = true
  is_waiting (some applied) =
      applied.status == condition_progressing || applied.status == condition_false

  unfoldable pub check_all : Run W Requeue
  unfolding check_objects try_condition updated is_waiting
  check_all (w, mr) =
      let (action, responsible) = active r.class_filter mr in
      let healthy =
        get_or_init_condition ((status_of mr).now w) mr.status.conditions resources_healthy in
      if not responsible
      then (ok done, (w, mr))
      else if is_some mr.deletion_timestamp
      then (try_condition (
              updated healthy condition_false deletion_pending
                "The resources are currently being deleted." (w, mr))
            >> pure done)
          (w, mr)
      else if is_waiting (get_condition mr.status.conditions resources_applied)
      then (ok (after r.sync_period), (w, mr))
      else conclude healthy (check_objects mr.status.resources w) mr

  abbrev pub fetched : Result ManagedResource × W → Result Requeue × W
  fetched (ok mr, w) = let (result, s) = check_all (w, mr) in (result, s.0)
  fetched (err e, w) =
      if is_not_found e
      then (ok done, w)
      else (err (errorf ("could not fetch ManagedResource: " +++ e.message)), w)

  -- Reconcile, for a request with a namespace and a name.
  unfoldable pub reconcile_health : String → String → Exec W Requeue
  unfolding check_all
  reconcile_health namespace name w = fetched (r.get namespace name w)
