-- ===== src/Tests/Merging.antt =====
-- Merges of labels, pod templates, services and StatefulSets.
use gardener_resource_manage.Prelude.{ℕ, true, Option, none, some, [], ◌∷◌, ◌≡◌, refl}
use gardener_resource_manage.Prelude.Int.{pos}
use gardener_resource_manage.Prelude.Lists.{Forall₂}
use gardener_resource_manage.Prelude.Tests.{string_eq, if◌then◌else◌}
use gardener_resource_manage.Prelude.Dict.{lookup, or_else}
use gardener_resource_manage.Api.Types.{StringMap}
use gardener_resource_manage.Objects.{entries, Unstructured, PodTemplate, Service, StatefulSet}
use gardener_resource_manage.Merge.{
  is_stale, merge_maps_based_on_old_map, lookup-merge_maps_based_on_old_map,
  merge_maps_based_on_old_map_settles, merge_pod_template, merge_pod_template_requests,
  KeepsRequests, load_balancer_type,
}
use gardener_resource_manage.Tests.Data.{gvk}

abbrev desired : StringMap
desired = ("app", "web") ∷ []

abbrev current : StringMap
current = ("app", "old") ∷ ("gone", "1") ∷ ("mine", "x") ∷ []

abbrev old : StringMap
old = ("app", "old") ∷ ("gone", "1") ∷ []

lookup-merge_maps_based_on_old_map_example :
    lookup "gone" (entries (merge_maps_based_on_old_map desired current old))
    ≡ or_else (lookup "gone" desired) (
        if is_stale (lookup "gone" old) (lookup "gone" current)
        then none
        else lookup "gone" current)
unfolding lookup
lookup-merge_maps_based_on_old_map_example =
    lookup-merge_maps_based_on_old_map "gone" desired current old (refl, (refl, tt))

merge_maps_based_on_old_map_settles_example :
    lookup "mine" (
      entries (
        merge_maps_based_on_old_map desired
          (entries (merge_maps_based_on_old_map desired current old))
          desired))
    ≡ lookup "mine" (entries (merge_maps_based_on_old_map desired current old))
unfolding lookup
merge_maps_based_on_old_map_settles_example =
    merge_maps_based_on_old_map_settles "mine" desired current old (refl, (refl, tt)) (refl, tt)

abbrev object_with : StringMap → Unstructured ℕ
object_with labels = record {
  gvk = gvk "" "v1" "ConfigMap";
  metadata = some (record {
    name = "conf";
    namespace = "shop";
    labels = some labels;
    annotations = none;
    rest = none;
  });
  status = none;
  content = 0;
}

abbrev pod_with : Option StringMap → PodTemplate ℕ
pod_with requests = record {
  labels = [];
  containers = record { name = "web"; requests = requests; limits = none; rest = 0 } ∷ [];
  rest = 0;
}

merge_pod_template_requests_example :
    Forall₂
      (KeepsRequests (pod_with (some (("cpu", "2") ∷ []))).containers)
      (pod_with (some [])).containers
      (merge_pod_template
        (pod_with (some (("cpu", "2") ∷ [])))
        (pod_with (some []))
        true).containers
merge_pod_template_requests_example =
    merge_pod_template_requests (pod_with (some (("cpu", "2") ∷ []))) (pod_with (some []))

abbrev service_with : ℕ → Service ℕ
service_with port = record {
  type = load_balancer_type;
  cluster_ip = "";
  ports = record { name = "http"; port = pos 80; node_port = pos port; rest = 0 } ∷ [];
  external_traffic_policy = "";
  health_check_node_port = pos 0;
  rest = 0;
}

abbrev set_with : Option StringMap → StatefulSet ℕ
set_with requests = record {
  namespace = "shop";
  creation_timestamp = none;
  replicas = none;
  match_labels = [];
  volume_claim_templates = [];
  template = pod_with requests;
  rest = 0;
}
