-- ===== src/Tests/Runs.antt =====
-- A reconciliation and a deletion that run to their end.
use gardener_resource_manage.Prelude.{
  ℕ, Bool, true, false, none, [], ◌∷◌, ◌≡◌, ◌≢◌, refl, ◌⊎◌, ◌↔◌, ap, arith,
}
use mathlib.Core.Path.{subst}
use gardener_resource_manage.Prelude.Lists.{contains, is_empty}
use gardener_resource_manage.Prelude.Tests.{string_eq, if◌then◌else◌, ◌==◌}
use gardener_resource_manage.Filter.{new_class_filter, responsible}
use gardener_resource_manage.Reconciler.Applying.{mutate, Object}
use gardener_resource_manage.Reconciler.Applying.Laws.{mutate_ignored}
use gardener_resource_manage.Reconciler.Annotations.{
  ignore, annotation_exists_and_value_true, parse_bool,
}
use gardener_resource_manage.Objects.{
  Unstructured, get_annotations, get_labels, get_name, get_namespace, metadata_of, entries,
}
use gardener_resource_manage.Secrets.{
  Secret, SecretReconciler, settle, reconcile_secret, secret_is_referenced, IsReferenced,
  reconcile_secret_lem,
}
use gardener_resource_manage.Merge.{description_annotation}
use gardener_resource_manage.Prelude.Dict.{lookup}
use gardener_resource_manage.Errors.{ok, ok_injective}
use gardener_resource_manage.Api.Types.{ManagedResource, resources_applied}
use gardener_resource_manage.Api.Conditions.{get_or_init_condition}
use gardener_resource_manage.ObjectIndex.{new_object_index}
use gardener_resource_manage.Utils.Finalizers.{delete_finalizer}
use gardener_resource_manage.Utils.Update.{IsServer, try_update, attempt}
use gardener_resource_manage.Utils.Backoff.{exponential_backoff}
use gardener_resource_manage.Reconciler.Cleaning.{clean_old_resources}
use gardener_resource_manage.Reconciler.Control.{done, after, try_update_conditions}
use gardener_resource_manage.Reconciler.Steps.{flag, status_of}
use gardener_resource_manage.Reconciler.Run.{delete}
use gardener_resource_manage.Reconciler.Run.Laws.{Cleared, delete_done}
use gardener_resource_manage.Tests.Data.{resource_of, never_same}
use gardener_resource_manage.Tests.Reconciling.{
  reconciler, applier, object_with, finalizing-IsFinalizing,
}

abbrev start : ManagedResource
start = resource_of none ("resources.gardener.cloud/gardener-resource-manager" ∷ []) []

not_five : (n : ℕ) → n ≢ 5 → after n ≢ after 5
not_five n h e = h (ap (λ q. q.requeue_after) e)

done_other : done ≢ after 5
done_other = not_five 0 (λ e. omega arith)

delete_done_example :
    (done ≡ done)
    × (contains "resources.gardener.cloud/gardener-resource-manager"
          (delete reconciler (start, start)).1.1.finalizers
        ≡ false)
    × (((flag start.spec.keep_objects ≡ true)
          × (delete_finalizer reconciler.finalizing reconciler.class.finalizer (start, start)
              ≡ (ok tt, (delete reconciler (start, start)).1)))
        ⊎ Cleared reconciler
            (get_or_init_condition
              ((status_of reconciler start).now start)
              start.status.conditions
              resources_applied)
            start.status.resources
            (start, start)
            (delete reconciler (start, start)).1)
unfolding delete try_update_conditions try_update exponential_backoff attempt is_empty
    clean_old_resources new_object_index delete_finalizer contains new_class_filter
delete_done_example =
    delete_done reconciler finalizing-IsFinalizing (start, start)
      (delete reconciler (start, start)).1 done refl done_other

-- An object with the annotation to be ignored is at hand.
abbrev ignored : Unstructured ℕ
ignored = object_with (("resources.gardener.cloud/ignore", "true") ∷ [])

abbrev pub applied_object : Object ℕ
applied_object = record {
  obj = ignored;
  old_labels = [];
  old_annotations = [];
  force_overwrite_labels = false;
  force_overwrite_annotations = false;
}

abbrev pub current : Unstructured ℕ
current = object_with (("mine", "x") ∷ [])

mutate_ignored_example :
    let s = mutate applier "origin" [] applied_object false false (ignored, current) in
    (s.0 ≡ ok tt)
    × (s.1.0 ≡ ignored)
    × (s.1.1.content ≡ current.content)
    × (s.1.1.gvk ≡ current.gvk)
    × (s.1.1.status ≡ current.status)
    × (get_name s.1.1 ≡ get_name current)
    × (get_namespace s.1.1 ≡ get_namespace current)
    × ((metadata_of s.1.1).rest ≡ (metadata_of current).rest)
    × (get_labels s.1.1 ≡ get_labels current)
    × (lookup "mine" (entries (get_annotations s.1.1)) ≡ (
        if description_annotation == "mine"
        then none
        else lookup "mine" (entries (get_annotations current))))
unfolding ignore annotation_exists_and_value_true lookup parse_bool
mutate_ignored_example =
    mutate_ignored applier "origin" [] applied_object false false ignored current "mine" refl

-- A secret without finalizers, which is the world.
abbrev secret : Secret
secret = record { namespace = "garden"; name = "secret"; finalizers = [] }

abbrev secrets : SecretReconciler Secret
secrets = record {
  class_filter = new_class_filter "";
  get = λ namespace name w. (ok w, w);
  list = λ namespace w. (ok [], w);
  access = λ namespace name. record { get = λ w. (ok w, w); update = λ o w. (ok o, o) };
  equal = never_same;
  waiting = record { done = λ s. none; sleep = λ d s. s };
  default_backoff = record { steps = 4; duration = 10; next = λ d. d; jittered = λ d. d };
}

secret_server :
    (o : Secret) (b : Bool)
    → IsServer
        (secrets.access o.namespace o.name)
        (λ w. w)
        (λ x. contains secrets.class_filter.finalizer x.finalizers ≡ b)
secret_server o b = record {
  get_held = λ w obj e. ok_injective e;
  update_held = λ w obj answer e. (
    ok_injective e,
    λ h.
        subst (λ (x : Secret). contains secrets.class_filter.finalizer x.finalizers ≡ b)
          (ok_injective e) h,
  );
}

-- A ManagedResource refers to the secret.
abbrev referring : ManagedResource
referring = record start { spec = record start.spec { secret_refs = "other" ∷ ("secret" ∷ []) } }

abbrev referenced : SecretReconciler Secret
referenced = record secrets { list = λ namespace w. (ok (referring ∷ []), w) }

reconcile_secret_lem_example :
    (reconcile_secret referenced "garden" "secret" secret
      ≡ (ok done, (settle referenced true (secret, secret)).1.0))
    × ((contains referenced.class_filter.finalizer
            (settle referenced true (secret, secret)).1.1.finalizers
          ≡ true)
        ↔ IsReferenced referenced (λ w. w) secret_server "secret" (referring ∷ []))
unfolding settle contains try_update exponential_backoff attempt secret_is_referenced responsible
    new_class_filter
reconcile_secret_lem_example =
    reconcile_secret_lem referenced (λ w. w) secret_server "garden" "secret" secret secret secret
      secret (referring ∷ []) (settle referenced true (secret, secret)).1 refl refl refl
