-- ===== src/Api/Conditions/Laws.antt =====
-- Reading and updating one condition.
use gardener_resource_manage.Prelude.{◌≡◌, ◌≢◌, ◌⊎◌, some, List, [], ◌∷◌, String, arith, refl}
use gardener_resource_manage.Prelude.Tests.{string_eq}
use gardener_resource_manage.Api.Types.{
  Time, ConditionType, ConditionStatus, ManagedResourceCondition,
}
use gardener_resource_manage.Api.Conditions.{
  init_condition, get_condition, get_or_init_condition, updated_condition,
}

pub type-get_condition :
    (conditions : List ManagedResourceCondition) (t : ConditionType) (c : ManagedResourceCondition)
    → get_condition conditions t ≡ some c
    → c.type ≡ t
unfolding get_condition
type-get_condition [] t c h = cc
type-get_condition (x ∷ xs) t c h =
    ground (arith, string_eq.beq_iff x.type t, type-get_condition xs t c)

-- The condition that a controller starts from has the type that it asked for, whether it was there
-- or not.
pub type-get_or_init_condition :
    (now : Time) (conditions : List ManagedResourceCondition) (t : ConditionType)
    → (get_or_init_condition now conditions t).type ≡ t
unfolding get_or_init_condition init_condition
type-get_or_init_condition now conditions t = grind (arith, type-get_condition)

-- `updated_condition` keeps the type; the transition time becomes `now` if the status changes and
-- stays otherwise; the update time becomes `now` if the reason or the message changes and stays
-- otherwise.
pub updated_condition_times :
    (now : Time) (c : ManagedResourceCondition) (status : ConditionStatus) (reason message : String)
    → ((updated_condition now c status reason message).type ≡ c.type)
      × (c.status ≡ status
          → (updated_condition now c status reason message).last_transition_time
            ≡ c.last_transition_time)
      × (c.status ≢ status
          → (updated_condition now c status reason message).last_transition_time ≡ now)
      × (c.reason ≡ reason
          → c.message ≡ message
          → (updated_condition now c status reason message).last_update_time ≡ c.last_update_time)
      × ((c.reason ≢ reason) ⊎ (c.message ≢ message)
          → (updated_condition now c status reason message).last_update_time ≡ now)
unfolding updated_condition
updated_condition_times now c status reason message =
    let s = string_eq.beq_iff c.status status in
    let r = string_eq.beq_iff c.reason reason in
    let m = string_eq.beq_iff c.message message in
    (
      refl,
      λ p. ground (arith, s),
      λ p. ground (arith, s),
      λ p q. ground (arith, r, m),
      λ p. ground (arith, r, m),
    )
