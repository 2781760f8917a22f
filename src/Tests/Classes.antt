-- ===== src/Tests/Classes.antt =====
-- Two instances with the classes "resources" and "seed".
use gardener_resource_manage.Prelude.{true, some, [], ◌∷◌, ◌≡◌, refl}
use gardener_resource_manage.Prelude.Lists.{contains}
use gardener_resource_manage.Prelude.Tests.{string_eq, ne_of_beq}
use gardener_resource_manage.Api.Types.{ManagedResource}
use gardener_resource_manage.Filter.{new_class_filter, active, responsible}
use gardener_resource_manage.Filter.Laws.{active_exclusive}
use gardener_resource_manage.Tests.Data.{resource_of}

-- Both finalizers stand on an object of the class "seed".
abbrev mr : ManagedResource
mr =
    resource_of (some "seed")
      ("resources.gardener.cloud/gardener-resource-manager"
        ∷ "resources.gardener.cloud/gardener-resource-manager-seed" ∷ [])
      []

active_exclusive_example :
    (contains (new_class_filter "").finalizer mr.finalizers ≡ true)
    × (contains (new_class_filter "seed").finalizer mr.finalizers ≡ true)
unfolding active responsible new_class_filter
active_exclusive_example =
    active_exclusive "" "seed" mr (ne_of_beq "resources" "seed" refl) refl refl
