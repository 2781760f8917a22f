-- ===== src/Tests/Conditions.antt =====
-- Conditions, and the health of a ManagedResource.
use gardener_resource_manage.Prelude.{List, [], ◌∷◌, ◌≡◌, refl}
use gardener_resource_manage.Prelude.Tests.{string_eq}
use gardener_resource_manage.Prelude.Lists.{find_first}
use gardener_resource_manage.Api.Types.{
  ManagedResourceCondition, resources_applied, resources_healthy, condition_true, condition_false,
}
use gardener_resource_manage.Api.Conditions.{get_condition, merge_conditions}
use gardener_resource_manage.Api.Conditions.Merging.{
  supersede_all, merge_conditions-eq-supersede_all,
}
use gardener_resource_manage.Tests.Data.{condition}

abbrev applied_healthy : List ManagedResourceCondition
applied_healthy =
    condition resources_applied condition_true ∷ condition resources_healthy condition_true ∷ []

abbrev failed : ManagedResourceCondition
failed = condition resources_applied condition_false

merge_conditions-eq-supersede_all_example :
    merge_conditions applied_healthy (failed ∷ []) ≡ supersede_all (failed ∷ []) applied_healthy
unfolding get_condition find_first
merge_conditions-eq-supersede_all_example =
    merge_conditions-eq-supersede_all applied_healthy (failed ∷ []) (refl, (refl, tt)) (refl, tt)
