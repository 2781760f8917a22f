-- ===== src/Reconciler/Cleaning/Concurrent.antt =====
-- cleanOldResources with its goroutines side by side: a step is one call of the API server, so that
-- the goroutines and other clients may come in between any two calls.
use gardener_resource_manage.Prelude.{
  ℕ, zero, suc, String, Bool, true, false, ◌||◌, none, List, [], ◌∷◌, ◌≡◌, refl, sym, ap, ◌∙◌, inl,
  inr, arith,
}
use gardener_resource_manage.Prelude.Tests.{◌==◌, string_eq, if◌then◌else◌, Bool-cases}
use gardener_resource_manage.Prelude.Lists.{contains}
use gardener_resource_manage.Prelude.Dict.{Dict}
use gardener_resource_manage.Errors.{Error, Result, ok, err, errorf, ◌+++◌}
use gardener_resource_manage.Api.Types.{ObjectReference, group_kind_eq}
use gardener_resource_manage.Objects.{Unstructured, StatefulSet, group_kind}
use gardener_resource_manage.Merge.{gk}
use gardener_resource_manage.ObjectIndex.{ObjectIndex, is_found}
use gardener_resource_manage.Reconciler.Annotations.{keep_object}
use gardener_resource_manage.Reconciler.Cleaner.{TargetClient, prefixed}
use gardener_resource_manage.Reconciler.Cleaning.{
  Output, failure, finished, gone_or_failure, resource_text, foreground_deletion_api_groups,
}
use gardener_resource_manage.Goroutines.{Task, send, call, perform, Pool}
pub mod Interleaved
pub mod Bounded

module _ {W C : Type 0} (client : TargetClient W C) (delete_pvcs : Bool) where
  abbrev pub answered : String → Result (Unit {0}) → Task W Output
  answered resource (err e) = send (gone_or_failure resource e)
  answered resource (ok _) =
      send (record { resource = resource; deletion_pending = true; error = none })

  abbrev pub delete_task : String → Unstructured C → Task W Output
  delete_task resource o =
      perform (client.delete (contains o.gvk.group foreground_deletion_api_groups) o)
        (answered resource)

  -- Behind the removal of the claims.
  abbrev pub claims_removed : String → Unstructured C → Result (Unit {0}) → Task W Output
  claims_removed resource o (err e) = send (failure resource (prefixed ": " e))
  claims_removed resource o (ok _) = delete_task resource o

  abbrev pub claims_listed : String → Unstructured C → StatefulSet C → Result ℕ → Task W Output
  claims_listed resource o s (err e) =
      send (failure resource (prefixed ": could not list PVCs of StatefulSet: " e))
  claims_listed resource o s (ok zero) = delete_task resource o
  claims_listed resource o s (ok (suc n)) =
      perform (client.delete_claims s.namespace s.match_labels) (claims_removed resource o)

  abbrev pub claims_task : String → Unstructured C → List C → StatefulSet C → Task W Output
  claims_task resource o [] s = delete_task resource o
  claims_task resource o (c ∷ cs) s =
      perform (client.list_claims s.namespace s.match_labels) (claims_listed resource o s)

  abbrev pub converted_task : String → Unstructured C → Result (StatefulSet C) → Task W Output
  converted_task resource o (ok s) = claims_task resource o s.volume_claim_templates s
  converted_task resource o (err e) =
      send (failure resource (prefixed ": could not convert object to StatefulSet: " e))

  abbrev pub stateful_set_task : Bool → String → Unstructured C → Task W Output
  stateful_set_task false resource o = delete_task resource o
  stateful_set_task true resource o = converted_task resource o (client.to_stateful_set o)

  abbrev pub cleanup_task : String → Unstructured C → Task W Output
  cleanup_task resource o =
      if group_kind o == gk "apps" "StatefulSet" || group_kind o == gk "extensions" "StatefulSet"
      then stateful_set_task delete_pvcs resource o
      else delete_task resource o

  abbrev pub object_task : String → Result (Unstructured C) → Task W Output
  object_task resource (err e) = send (gone_or_failure resource e)
  object_task resource (ok o) =
      if keep_object o then send (finished resource) else cleanup_task resource o

  -- The function under `go`.
  unfoldable pub clean_task : ObjectReference → Task W Output
  clean_task ref = perform (client.get ref) (object_task (resource_text ref))

  -- The goroutines that the loop over the old objects starts.
  unfoldable pub clean_tasks : ObjectIndex → Dict String ObjectReference → List (Task W Output)
  unfolding clean_task
  clean_tasks index [] = []
  clean_tasks index ((key, ref) ∷ objects) =
      let rest = clean_tasks index objects in
      if is_found index ref then rest else clean_task ref ∷ rest

  -- The pool behind that loop; nothing has run yet.
  unfoldable pub started : ObjectIndex → W → Pool W Output
  unfolding clean_tasks
  started index w = record { tasks = clean_tasks index index.index; received = []; world = w }
