-- ===== src/Health/Managed.antt =====
-- CheckManagedResource: both conditions are True, and the status is of the current generation.
use gardener_resource_manage.Prelude.{not, Option, none, some, ◌≡◌, ◌↔◌, refl, arith}
use gardener_resource_manage.Prelude.Int.{int_eq}
use gardener_resource_manage.Prelude.Tests.{◌==◌, string_eq, if◌then◌else◌}
use gardener_resource_manage.Api.Types.{
  ManagedResource, ManagedResourceCondition, ConditionType, condition_true, resources_applied,
  resources_healthy,
}
use gardener_resource_manage.Api.Conditions.{get_condition}
use gardener_resource_manage.Health.Types.{
  Check, observed_generation_outdated, not_reported_yet, condition_is,
}
use gardener_resource_manage.Health.Checks.{◌and_then◌}

check_reported : ConditionType → Option ManagedResourceCondition → Check
check_reported t none = some (not_reported_yet t)
check_reported t (some c) =
    if not (c.status == condition_true) then some (condition_is t c.status c.message) else none

unfoldable pub check_managed_resource_applied : ManagedResource → Check
unfolding check_reported
check_managed_resource_applied mr =
    if not (mr.status.observed_generation == mr.generation)
    then some (observed_generation_outdated mr.status.observed_generation mr.generation)
    else check_reported resources_applied (get_condition mr.status.conditions resources_applied)

unfoldable pub check_managed_resource_healthy : ManagedResource → Check
unfolding check_reported
check_managed_resource_healthy mr =
    check_reported resources_healthy (get_condition mr.status.conditions resources_healthy)

unfoldable pub check_managed_resource : ManagedResource → Check
unfolding check_managed_resource_applied check_managed_resource_healthy
check_managed_resource mr =
    check_managed_resource_applied mr and_then check_managed_resource_healthy mr

-- A condition of the type is reported and has status True.
abbrev pub IsTrue : ManagedResource → ConditionType → Type 0
IsTrue mr t =
    (c : ManagedResourceCondition) × (get_condition mr.status.conditions t ≡ some c)
    × (c.status ≡ condition_true)

check_reported_iff :
    (t : ConditionType) (o : Option ManagedResourceCondition)
    → (check_reported t o ≡ none)
      ↔ ((c : ManagedResourceCondition) × (o ≡ some c) × (c.status ≡ condition_true))
unfolding check_reported
check_reported_iff t none = (λ h. cc, λ h. cc h.1)
check_reported_iff t (some c) = (
  λ h. (c, refl, ground (arith, string_eq.beq_iff c.status condition_true)),
  λ (d, p, q). ground (arith, string_eq.beq_iff c.status condition_true),
)

-- A ManagedResource passes exactly if its status is of its current generation and both conditions,
-- ResourcesApplied and ResourcesHealthy, are reported as True.
pub check_managed_resource_iff :
    (mr : ManagedResource)
    → (check_managed_resource mr ≡ none) ↔ (
        (mr.status.observed_generation ≡ mr.generation)
        × IsTrue mr resources_applied
        × IsTrue mr resources_healthy)
unfolding check_managed_resource
check_managed_resource_iff mr =
    let t =
      check_reported_iff resources_applied (get_condition mr.status.conditions resources_applied) in
    let u =
      check_reported_iff resources_healthy (get_condition mr.status.conditions resources_healthy) in
    let g = int_eq.beq_iff mr.status.observed_generation mr.generation in
    (
      λ h. (ground (arith, g), t.0 (ground (arith, g)), u.0 (ground (arith, g))),
      λ (p, q, r). ground (arith, g, t.1 q, u.1 r),
    )
