-- ===== src/Controllers/Watches.antt =====
-- What the controllers watch, with the predicates on the events.
use gardener_resource_manage.Prelude.{String, Bool, true, ◌&&◌, List, [], ◌∷◌, ◌≡◌, ◌≢◌}
use gardener_resource_manage.Prelude.Lists.{any}
use gardener_resource_manage.Api.Types.{ManagedResource, resources_applied, resources_healthy}
use gardener_resource_manage.Filter.{ClassFilter, relevant}
use gardener_resource_manage.Predicates.{
  Funcs, has_finalizer, class_changed, condition_status_changed, default_condition_change,
  condition_changed_to_unhealthy,
}

-- Of controller-runtime: all predicates of a watch, predicate.Or, GenerationChangedPredicate; of
-- the extensions library: HasOperationAnnotation.
pub record Watching : Type 0 where
  pub all_of : List (Funcs ManagedResource) → Funcs ManagedResource
  pub any_of : List (Funcs ManagedResource) → Funcs ManagedResource
  pub generation_changed : Funcs ManagedResource
  pub has_operation_annotation : Funcs ManagedResource

abbrev pub every : {O : Type 0} → (Funcs O → Bool) → List (Funcs O) → Bool
every test [] = true
every test (f ∷ fs) = test f && every test fs

-- The documented meaning of these predicates on updates, and of the first two on creations.
pub record IsWatching (c : Watching) : Type 0 where
  pub all_of_update :
      (fs : List (Funcs ManagedResource)) (old new : ManagedResource)
      → (c.all_of fs).update old new ≡ every (λ f. f.update old new) fs
  pub any_of_update :
      (fs : List (Funcs ManagedResource)) (old new : ManagedResource)
      → (c.any_of fs).update old new ≡ any (λ f. f.update old new) fs
  pub all_of_create :
      (fs : List (Funcs ManagedResource)) (o : ManagedResource)
      → (c.all_of fs).create o ≡ every (λ f. f.create o) fs
  pub any_of_create :
      (fs : List (Funcs ManagedResource)) (o : ManagedResource)
      → (c.any_of fs).create o ≡ any (λ f. f.create o) fs
  pub generation_changed_update :
      (old new : ManagedResource)
      → old.generation ≢ new.generation
      → c.generation_changed.update old new ≡ true
  pub generation_changed_create : (o : ManagedResource) → c.generation_changed.create o ≡ true

-- The methods of the filter as predicates.
unfoldable pub class_funcs : ClassFilter → Funcs ManagedResource
class_funcs f = record {
  create = λ o. relevant f o;
  update = λ old new. relevant f new;
  delete = λ o. relevant f o;
  generic = λ o. relevant f o;
}

module _ (c : Watching) where
  -- The controller of ManagedResources.
  unfoldable pub resource_events : ClassFilter → Funcs ManagedResource
  unfolding class_funcs
  resource_events f = c.all_of (
      class_funcs f
      ∷ c.any_of (
          c.generation_changed
          ∷ c.has_operation_annotation
          ∷ condition_status_changed resources_healthy condition_changed_to_unhealthy
          ∷ [])
      ∷ [])

  -- The health controller; its handler has functions for creations and updates only.
  unfoldable pub health_events : ClassFilter → Funcs ManagedResource
  unfolding class_funcs
  health_events f = c.all_of (
      class_funcs f
      ∷ c.any_of
          (class_changed ∷ condition_status_changed resources_applied default_condition_change ∷ [])
      ∷ [])

  -- The secret controller, for ManagedResources.
  unfoldable pub secret_events : Funcs ManagedResource
  secret_events = c.all_of (c.generation_changed ∷ [])

-- The secret controller, for the finalizers of secrets.
unfoldable pub finalizer_events : ClassFilter → Funcs (List String)
finalizer_events f = has_finalizer f.finalizer
