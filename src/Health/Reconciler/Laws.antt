-- ===== src/Health/Reconciler/Laws.antt =====
-- What it takes for the loop over the objects to find all of them healthy.
use gardener_resource_manage.Prelude.{none, ◌≡◌}
use gardener_resource_manage.Errors.{ok}
use gardener_resource_manage.Api.Types.{ObjectReference}
use gardener_resource_manage.Health.Dispatch.{check_health}
use gardener_resource_manage.Health.Reconciler.{HealthReconciler}

module _ {W O : Type 0} (r : HealthReconciler W O) where
  -- The object was read in some world and its check found no error.
  abbrev pub IsHealthy : ObjectReference → Type 0
  IsHealthy ref =
      (w : W) × (o : O) × ((r.get_target ref w).0 ≡ ok o) × (check_health r.scheme o ≡ none)
