-- ===== src/Api/Conditions.antt =====
-- api/resources/v1alpha1/helper/helper.go. The time of the call `Now()` is an argument.
use gardener_resource_manage.Prelude.{
  ℕ, suc, Option, none, some, List, [], ◌∷◌, ◌++◌, String, ◌||◌, not,
}
use gardener_resource_manage.Prelude.Tests.{◌==◌, string_eq, if◌then◌else◌}
use gardener_resource_manage.Prelude.Lists.{find_first, set}
use gardener_resource_manage.Prelude.Dict.{Dict, lookup, insert}
use gardener_resource_manage.Api.Types.{
  Time, ConditionType, ConditionStatus, condition_unknown, ManagedResourceCondition,
}
pub mod Laws
pub mod Merging

unfoldable pub init_condition : Time → ConditionType → ManagedResourceCondition
init_condition now condition_type = record {
  type = condition_type;
  status = condition_unknown;
  reason = "ConditionInitialized";
  message = "The condition has been initialized but its semantic check has not been performed yet.";
  last_transition_time = now;
  last_update_time = now;
}

unfoldable pub get_condition :
    List ManagedResourceCondition → ConditionType → Option ManagedResourceCondition
unfolding find_first
get_condition conditions condition_type = find_first (λ c. c.type == condition_type) conditions

unfoldable pub get_or_init_condition :
    Time → List ManagedResourceCondition → ConditionType → ManagedResourceCondition
get_or_init_condition now conditions condition_type =
    elim (get_condition conditions condition_type) [
      | some condition ↦ condition
      | none ↦ init_condition now condition_type
    ]

unfoldable pub updated_condition :
    Time → ManagedResourceCondition → ConditionStatus → String → String → ManagedResourceCondition
updated_condition now condition status reason message = record {
  type = condition.type;
  status = status;
  reason = reason;
  message = message;
  last_transition_time =
      if not (condition.status == status) then now else condition.last_transition_time;
  last_update_time =
      if not (condition.reason == reason) || not (condition.message == message)
      then now
      else condition.last_update_time;
}

-- The first loop of MergeConditions: the last index of each type.
type_to_index : ℕ → List ManagedResourceCondition → Dict ConditionType ℕ → Dict ConditionType ℕ
type_to_index i [] index = index
type_to_index i (condition ∷ conditions) index =
    type_to_index (suc i) conditions (insert condition.type i index)

-- The second loop: supersede at the index, or append. The index is not updated on the way.
merge_new :
    Dict ConditionType ℕ
    → List ManagedResourceCondition
    → List ManagedResourceCondition
    → List ManagedResourceCondition
merge_new index [] out = out
merge_new index (condition ∷ conditions) out =
    merge_new index conditions (elim (lookup condition.type index) [
      | some i ↦ set out i condition
      | none ↦ out ++ condition ∷ []
    ])

unfoldable pub merge_conditions :
    List ManagedResourceCondition → List ManagedResourceCondition → List ManagedResourceCondition
unfolding type_to_index merge_new lookup insert
merge_conditions old_conditions new_conditions =
    merge_new (type_to_index 0 old_conditions []) new_conditions old_conditions
