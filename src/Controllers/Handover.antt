-- ===== src/Controllers/Handover.antt =====
-- A ManagedResource that moves from the class of one instance to that of another.
use gardener_resource_manage.Prelude.{
  String, Bool, true, none, [], ◌∷◌, ◌≡◌, ◌≢◌, refl, ap, ◌∙◌, arith,
}
use gardener_resource_manage.Prelude.Tests.{string_eq}
use gardener_resource_manage.Prelude.Lists.{contains, any}
use gardener_resource_manage.Api.Types.{ManagedResource, resources_healthy}
use gardener_resource_manage.Filter.{new_class_filter, responsible, active, relevant}
use gardener_resource_manage.Filter.Laws.{active_iff, has_base}
use gardener_resource_manage.Predicates.{condition_status_changed, condition_changed_to_unhealthy}
use gardener_resource_manage.Reconciler.Steps.{Reconciler}
use gardener_resource_manage.Reconciler.Run.{dispatch, decided, reconcile}
use gardener_resource_manage.Controllers.Watches.{
  Watching, IsWatching, class_funcs, resource_events,
}

-- An update that changes the generation reaches the work queue of an instance exactly if the
-- instance acts on the new object or is responsible for it.
pub resource_events_generation :
    (c : Watching) (laws : IsWatching c) (class : String) (old new : ManagedResource)
    → old.generation ≢ new.generation
    → (resource_events c (new_class_filter class)).update old new
      ≡ relevant (new_class_filter class) new
unfolding resource_events class_funcs any
resource_events_generation c laws class old new changed =
    let unhealthy = condition_status_changed resources_healthy condition_changed_to_unhealthy in
    let causes = c.generation_changed ∷ c.has_operation_annotation ∷ unhealthy ∷ [] in
    let f = class_funcs (new_class_filter class) in
    ground (
      arith,
      laws.all_of_update (f ∷ c.any_of causes ∷ []) old new,
      laws.any_of_update causes old new,
      laws.generation_changed_update old new changed,
    )

module _ (a b : String) (mr : ManagedResource)
    (differ : (new_class_filter a).resource_class ≢ (new_class_filter b).resource_class)
    (moved : responsible (new_class_filter b) mr ≡ true) where
  active_second : (active (new_class_filter b) mr).1 ≡ true
  unfolding active
  active_second = moved

  active_free : mr.finalizers ≡ [] → active (new_class_filter b) mr ≡ (true, true)
  unfolding contains any
  active_free free =
      let first : (active (new_class_filter b) mr).0 ≡ true =
        active_iff b mr
        ∙ ground
            (arith, ap (contains (new_class_filter b).finalizer) free, ap (any has_base) free) in
      λ i. (first i, active_second i)

dispatch-decided :
    {W C T V : Type 0} (r : Reconciler W C T V) (w : W) (mr : ManagedResource)
    → dispatch r (w, mr) ≡ decided r mr.deletion_timestamp (active r.class mr) (w, mr)
unfolding dispatch
dispatch-decided r w mr = refl

module _ {W C T V : Type 0} (old_owner new_owner : Reconciler W C T V) (a b : String)
    (of_a : old_owner.class ≡ new_class_filter a) (of_b : new_owner.class ≡ new_class_filter b)
    (differ : (new_class_filter a).resource_class ≢ (new_class_filter b).resource_class)
    (c : Watching) (laws : IsWatching c) (w : W) (before mr : ManagedResource)
    (moved : responsible (new_class_filter b) mr ≡ true)
    (changed : before.generation ≢ mr.generation) (alive : mr.deletion_timestamp ≡ none) where
  chosen :
      (r : Reconciler W C T V) {x : Bool × Bool}
      → active r.class mr ≡ x
      → decided r mr.deletion_timestamp (active r.class mr) (w, mr) ≡ decided r none x (w, mr)
  chosen r e = λ i. decided r (alive i) (e i) (w, mr)

  -- Once no finalizer is left, the new instance applies the objects.
  pub takeover : mr.finalizers ≡ [] → dispatch new_owner (w, mr) ≡ reconcile new_owner (w, mr)
  takeover free =
      dispatch-decided new_owner w mr
      ∙ chosen new_owner (ap (λ f. active f mr) of_b ∙ active_free a b mr differ moved free)
