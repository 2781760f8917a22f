-- ===== src/Reconciler/Steps.antt =====
-- pkg/controller/managedresource/reconciler.go: the reconciler with what it calls, and the first
-- steps of reconcile, which read the secrets and invalidate the conditions.
use gardener_resource_manage.Prelude.{
  ℕ, String, Bool, false, not, ◌||◌, Option, none, some, List, [], ◌∷◌,
}
use gardener_resource_manage.Prelude.Tests.{◌==◌, string_eq, if◌then◌else◌}
use gardener_resource_manage.Prelude.Lists.{is_empty}
use gardener_resource_manage.Prelude.Dict.{Dict}
use gardener_resource_manage.Errors.{Error, ok, err, errorf, ◌+++◌}
use gardener_resource_manage.Exec.{Exec, pure, raise, wrap, catch, ◌>>=◌, ◌>>◌}
use gardener_resource_manage.Api.Types.{
  GroupVersionKind, ManagedResource, ManagedResourceCondition, ObjectReference, resources_healthy,
  condition_false, condition_unknown, condition_progressing, apply_failed, apply_progressing,
  deletion_failed, deletion_pending, health_checks_pending,
}
use gardener_resource_manage.Api.Conditions.{get_or_init_condition, updated_condition}
use gardener_resource_manage.Filter.{ClassFilter}
use gardener_resource_manage.Sorting.{ReferenceSorter}
use gardener_resource_manage.Utils.Finalizers.{Finalizing}
use gardener_resource_manage.Reconciler.Cleaner.{TargetClient}
use gardener_resource_manage.Reconciler.Applying.{Applier}
use gardener_resource_manage.Reconciler.Control.{
  StatusClient, Run, try_update_conditions, no_status, on_world, reads,
}
use gardener_resource_manage.Reconciler.Decoding.{Mapping, Document, Decoding, Decoded, add_secret}

-- The struct Reconciler with what it calls. `sort` is sort.Sort, `references_equal` the semantic
-- equality of two lists of references.
pub record Reconciler (W C T V : Type 0) : Type 0 where
  pub class : ClassFilter
  pub cluster_id : String
  pub sync_period : ℕ
  pub get : String → String → Exec W ManagedResource
  pub get_secret : String → String → Exec W (Dict String String)
  pub status_client : String → String → StatusClient W
  pub finalizing : Finalizing W ManagedResource
  pub target : TargetClient W C
  pub applier : Applier W C T V
  pub mapping : W → GroupVersionKind → Mapping
  pub decode : String → List (Document C)
  pub sort : ReferenceSorter → ReferenceSorter
  pub references_equal : List ObjectReference → List ObjectReference → Bool

abbrev pub flag : Option Bool → Bool
flag none = false
flag (some b) = b

module _ {W C T V : Type 0} (r : Reconciler W C T V) where
  abbrev pub status_of : ManagedResource → StatusClient W
  status_of mr = r.status_client mr.namespace mr.name

  -- tryUpdateManagedResourceConditions with the error that its callers make of an error.
  unfoldable pub try_conditions : List ManagedResourceCondition → Run W (Unit {0})
  try_conditions conditions s = wrap no_status (try_update_conditions (status_of s.1) conditions) s

  -- UpdatedCondition at the time of the call.
  unfoldable pub updated :
      ManagedResourceCondition → String → String → String → Run W ManagedResourceCondition
  updated condition status reason message (w, mr) =
      (ok (updated_condition ((status_of mr).now w) condition status reason message), (w, mr))

  -- An unreadable secret ends the run. Its own name is not known to the code where the read fails.
  unfoldable pub unreadable : ManagedResourceCondition → Error → Run W (Decoded C)
  unfolding try_conditions updated
  unreadable condition e = updated condition condition_false "CannotReadSecret" e.message >>= λ c.
      try_conditions (c ∷ []) >> raise (errorf ("could not read secret '': " +++ e.message))

  abbrev pub read_secret : String → Run W (Dict String String)
  read_secret name s = on_world (r.get_secret s.1.namespace name) s

  abbrev pub secret_text : String → Run W String
  secret_text name = reads (λ mr. mr.namespace +++ ("/" +++ name))

  -- `mr.Spec.SecretRefs` in turn.
  unfoldable pub read_secrets :
      Decoding C → ManagedResourceCondition → List String → Decoded C → Run W (Decoded C)
  unfolding unreadable
  read_secrets d condition [] s = pure s
  read_secrets d condition (name ∷ names) s = secret_text name >>= λ text.
      catch (read_secret name) >>= λ secret. elim secret [
        | ok content ↦ read_secrets d condition names (add_secret d text content s)
        | err e ↦ unreadable condition e
      ]

  -- The reason and the message that a failed run has left are kept.
  unfoldable pub kept_progress : ManagedResourceCondition → String × String
  kept_progress c =
      if c.reason == apply_failed || c.reason == deletion_failed || c.reason == deletion_pending
      then (c.reason, c.message)
      else (apply_progressing, "The resources are currently being reconciled.")

  -- Invalidates the conditions when resources were added or removed.
  unfoldable pub progress :
      List ObjectReference → ManagedResourceCondition → Run W ManagedResourceCondition
  unfolding kept_progress updated try_conditions
  progress references applied s =
      let resources = s.1.status.resources in
      if is_empty resources || not (r.references_equal resources references)
      then (updated
              (get_or_init_condition ((status_of s.1).now s.0) s.1.status.conditions
                resources_healthy)
              condition_unknown health_checks_pending
              "The health checks have not yet been executed for the current set of resources."
            >>= λ healthy.
                updated applied condition_progressing (kept_progress applied).0
                  (kept_progress applied).1
                >>= λ c. try_conditions (healthy ∷ c ∷ []) >> pure c)
          s
      else (ok applied, s)
