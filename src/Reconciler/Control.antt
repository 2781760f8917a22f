-- ===== src/Reconciler/Control.antt =====
-- What the reconcilers share: the result for the work queue, code that runs on the world beside the
-- ManagedResource at hand, and the updates of its status.
use gardener_resource_manage.Prelude.{ℕ, Bool, true, false, List}
use gardener_resource_manage.Prelude.Tests.{Same}
use gardener_resource_manage.Errors.{Error, Result, ok, errorf, ◌+++◌}
use gardener_resource_manage.Exec.{Exec}
use gardener_resource_manage.Api.Types.{
  Time, ManagedResource, ManagedResourceCondition, ObjectReference,
}
use gardener_resource_manage.Api.Conditions.{merge_conditions}
use gardener_resource_manage.Utils.Backoff.{Backoff, Waiting}
use gardener_resource_manage.Utils.Update.{Access, try_update}

-- ctrl.Result; times are seconds, 0 where the field is not set.
pub record Requeue : Type 0 where
  pub requeue : Bool
  pub requeue_after : ℕ

abbrev pub done : Requeue
done = record { requeue = false; requeue_after = 0 }

abbrev pub again : Requeue
again = record { requeue = true; requeue_after = 0 }

abbrev pub after : ℕ → Requeue
after seconds = record { requeue = false; requeue_after = seconds }

-- The client of the source cluster for the status of one ManagedResource; `equal` is
-- reflect.DeepEqual and `now` the clock.
pub record StatusClient (W : Type 0) : Type 0 where
  pub access : Access W ManagedResource
  pub equal : Same ManagedResource
  pub waiting : Waiting (W × ManagedResource)
  pub default_backoff : Backoff
  pub now : W → Time

-- The world beside the ManagedResource, which reads and updates overwrite.
abbrev pub Run : Type 0 → Type 0 → Type 0
Run W A = Exec (W × ManagedResource) A

abbrev pub with_conditions : List ManagedResourceCondition → ManagedResource → ManagedResource
with_conditions conditions mr = record mr {
  status = record mr.status { conditions = merge_conditions mr.status.conditions conditions };
}

unfoldable pub set_conditions : List ManagedResourceCondition → Exec ManagedResource (Unit {0})
set_conditions conditions mr = (ok tt, with_conditions conditions mr)

unfoldable pub set_status :
    List ObjectReference → List ManagedResourceCondition → Exec ManagedResource (Unit {0})
set_status resources conditions mr = (
  ok tt,
  record mr {
    status = record {
      conditions = merge_conditions mr.status.conditions conditions;
      observed_generation = mr.generation;
      resources = resources;
    };
  },
)

module _ {W : Type 0} (c : StatusClient W) where
  -- tryUpdateManagedResourceConditions
  unfoldable pub try_update_conditions : List ManagedResourceCondition → Run W (Unit {0})
  unfolding set_conditions
  try_update_conditions conditions =
      try_update ⦃e = c.equal⦄ c.access (set_conditions conditions) c.waiting c.default_backoff

  -- tryUpdateManagedResourceStatus
  unfoldable pub try_update_status :
      List ObjectReference → List ManagedResourceCondition → Run W (Unit {0})
  unfolding set_status
  try_update_status resources conditions =
      try_update ⦃e = c.equal⦄ c.access (set_status resources conditions) c.waiting
        c.default_backoff

-- The error that stands for one of a status update.
abbrev pub no_status : Error → Error
no_status e = errorf ("could not update the ManagedResource status: " +++ e.message)

module _ {W : Type 0} where
  -- Code that needs the world only.
  abbrev pub beside :
      {A : Type 0} → ManagedResource → Result A × W → Result A × (W × ManagedResource)
  beside mr (r, w) = (r, (w, mr))

  abbrev pub on_world : {A : Type 0} → Exec W A → Run W A
  on_world m (w, mr) = beside mr (m w)

  -- Code that cannot fail and may read the ManagedResource.
  abbrev pub total : {A : Type 0} → (ManagedResource → W → A × W) → Run W A
  total f (w, mr) = let (a, w') = f mr w in (ok a, (w', mr))

  abbrev pub reads : {A : Type 0} → (ManagedResource → A) → Run W A
  reads f (w, mr) = (ok (f mr), (w, mr))
