-- ===== src/Tests/Events.antt =====
-- Events of a ManagedResource and its secret.
use gardener_resource_manage.Prelude.{none, [], ◌∷◌, ◌≡◌, refl}
use gardener_resource_manage.Prelude.Lists.{any}
use gardener_resource_manage.Prelude.Tests.{string_eq, ne_of_beq}
use gardener_resource_manage.Api.Types.{ManagedResource, resources_healthy, condition_false}
use gardener_resource_manage.Secrets.{Secret}
use gardener_resource_manage.Mapper.{
  map_listed, map_resource, is_for, map_listed-map_resource, eval_generic_predicate,
}
use gardener_resource_manage.Tests.Data.{resource_of, condition}

abbrev mr : ManagedResource
mr = resource_of none [] []

abbrev secret : Secret
secret = record { namespace = "garden"; name = "secret"; finalizers = [] }

map_listed-map_resource_example :
    any (is_for mr.namespace mr.name) (map_listed [] secret (mr ∷ []))
    ≡ any (is_for mr.namespace secret.name) (map_resource mr)
unfolding eval_generic_predicate
map_listed-map_resource_example =
    map_listed-map_resource [] secret mr (ne_of_beq "secret" "" refl) refl

abbrev unhealthy : ManagedResource
unhealthy = record mr {
  status = record mr.status { conditions = condition resources_healthy condition_false ∷ [] };
}
