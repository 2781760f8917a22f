-- ===== src/Tests/Reconciling.antt =====
-- Runs of the reconcilers against a server that holds one ManagedResource, which is the world.
use gardener_resource_manage.Prelude.{
  ℕ, true, false, ◌&&◌, ◌||◌, none, some, [], ◌∷◌, ◌≡◌, refl, sym, ap, arith,
}
use gardener_resource_manage.Prelude.Lists.{contains, any}
use gardener_resource_manage.Prelude.Tests.{string_eq}
use gardener_resource_manage.Prelude.Dict.{lookup, insert, insert_all}
use gardener_resource_manage.Errors.{Result, ok, err, errorf, ok_injective}
use gardener_resource_manage.Api.Types.{ManagedResource, StringMap}
use gardener_resource_manage.Objects.{Unstructured, Scheme}
use gardener_resource_manage.Equivalences.{no_equivalences}
use gardener_resource_manage.ObjectIndex.{ObjectIndex, new_object_index}
use gardener_resource_manage.Merge.{merge_maps}
use gardener_resource_manage.Reconciler.Cleaner.{TargetClient}
use gardener_resource_manage.Reconciler.Labels.{
  Nested, inject_labels, inject_labels_into_pod_template, inject_labels_into_volume_claim_template,
  merge_labels,
}
use gardener_resource_manage.Reconciler.Labels.Laws.{IsNested, Injected, inject_labels_everywhere}
use gardener_resource_manage.Reconciler.Scaling.{
  Autoscalers, ScaledObjects, ScaleTarget, Hvpa, targets, compute_all_scaled_object_keys,
  compute_all_scaled_object_keys-contains, add_hpas, add_hvpas, target_object_key, insert_hvpa,
}
use gardener_resource_manage.Keys.{object_key, key_namespace}
use gardener_resource_manage.Filter.{new_class_filter}
use gardener_resource_manage.Utils.CreateOrUpdate.{ObjectClient, Registration}
use gardener_resource_manage.Utils.Finalizers.{Finalizing, IsFinalizing}
use gardener_resource_manage.Reconciler.Applying.{Applier}
use gardener_resource_manage.Reconciler.Decoding.{Mapping}
use gardener_resource_manage.Reconciler.Steps.{Reconciler}
use gardener_resource_manage.Tests.Data.{
  gvk, resource_of, config_ref, deployment_ref, status_client_of,
}

-- An object of the cluster, with the annotations.
abbrev pub object_with : StringMap → Unstructured ℕ
object_with annotations = record {
  gvk = gvk "" "v1" "ConfigMap";
  metadata = some (record {
    name = "conf";
    namespace = "shop";
    labels = none;
    annotations = some annotations;
    rest = none;
  });
  status = none;
  content = 0;
}

abbrev no_conversion : {A : Type 0} → Result A
no_conversion = err (errorf "not that type")

abbrev pub target : TargetClient ManagedResource ℕ
target = record {
  get = λ ref w. (ok (object_with []), w);
  delete = λ foreground o w. (ok tt, w);
  list_claims = λ namespace labels w. (ok 0, w);
  delete_claims = λ namespace labels w. (ok tt, w);
  to_stateful_set = λ o. no_conversion;
}

abbrev pub index : ObjectIndex
index = new_object_index (deployment_ref ∷ config_ref ∷ []) no_equivalences

abbrev pub mr : ManagedResource
mr = resource_of none [] (config_ref ∷ [])

-- The content is the labels of a pod template.
abbrev nested : Nested StringMap ℕ
nested = record {
  has_template = λ c. ok true;
  template_labels = λ c. ok (some c);
  set_template_labels = λ l c. ok l;
  claim_templates = λ c. ok none;
  set_claim_templates = λ vs c. no_conversion;
  is_map = λ v. true;
  claim_labels = λ v. ok none;
  set_claim_labels = λ l v. no_conversion;
}

nested-IsNested : IsNested nested
nested-IsNested = record {
  template_written = λ l c c' e. (ground (arith, ok_injective e), refl);
  claim_written = λ l v v' e. ground arith;
  claims_written = λ vs c c' e. ground arith;
}

abbrev pod_owner : Unstructured StringMap
pod_owner = record {
  gvk = gvk "apps" "v1" "Deployment";
  metadata = none;
  status = none;
  content = ("app", "web") ∷ [];
}

abbrev injected : Unstructured StringMap
injected = record {
  gvk = gvk "apps" "v1" "Deployment";
  metadata = some (record {
    name = "";
    namespace = "";
    labels = some (("by", "us") ∷ []);
    annotations = none;
    rest = none;
  });
  status = none;
  content = ("app", "web") ∷ ("by", "us") ∷ [];
}

inject_labels_everywhere_example : Injected nested "by" "us" pod_owner injected
unfolding inject_labels lookup inject_labels_into_pod_template
    inject_labels_into_volume_claim_template merge_labels merge_maps insert_all insert
inject_labels_everywhere_example =
    inject_labels_everywhere nested nested-IsNested "by" "us" (("by", "us") ∷ []) pod_owner injected
      refl refl

-- A target of an Hvpa that deploys a VPA only.
abbrev scale_target : ScaleTarget
scale_target = record {
  namespace = "shop";
  name = "web";
  target_api_version = "apps/v1";
  target_kind = "Deployment";
  target_name = "web";
}

abbrev hvpa : Hvpa
hvpa = record { target = scale_target; hpa_deploy = false; vpa_deploy = true }

abbrev autoscalers : Autoscalers
autoscalers = record {
  parse_group = λ s. ok "apps";
  list_hpas = ok [];
  list_hvpas = ok (hvpa ∷ []);
}

abbrev scaled : ScaledObjects
scaled = record { horizontally = []; vertically = "apps/Deployment/shop/web" ∷ [] }

compute_all_scaled_object_keys-contains_example :
    (contains "apps/Deployment/shop/web" scaled.horizontally ≡ (
      any
        (λ h. h.hpa_deploy && targets autoscalers.parse_group "apps/Deployment/shop/web" h.target)
        (hvpa ∷ [])
      || any (targets autoscalers.parse_group "apps/Deployment/shop/web") []))
    × (contains "apps/Deployment/shop/web" scaled.vertically
        ≡ any
            (λ h.
              h.vpa_deploy && targets autoscalers.parse_group "apps/Deployment/shop/web" h.target)
            (hvpa ∷ []))
unfolding compute_all_scaled_object_keys add_hpas add_hvpas target_object_key insert_hvpa object_key
    key_namespace
compute_all_scaled_object_keys-contains_example =
    compute_all_scaled_object_keys-contains autoscalers [] (hvpa ∷ []) scaled
      "apps/Deployment/shop/web" refl refl refl

-- The parts of a reconciler for objects without a pod template.
abbrev plain : Nested ℕ ℕ
plain = record {
  has_template = λ c. ok false;
  template_labels = λ c. ok none;
  set_template_labels = λ l c. ok c;
  claim_templates = λ c. ok none;
  set_claim_templates = λ vs c. ok c;
  is_map = λ v. true;
  claim_labels = λ v. ok none;
  set_claim_labels = λ l v. ok v;
}

abbrev scheme : Scheme ℕ
scheme = record {
  to_deployment = λ o. no_conversion;
  from_deployment = λ d. no_conversion;
  to_job = λ o. no_conversion;
  from_job = λ d. no_conversion;
  to_stateful_set = λ o. no_conversion;
  from_stateful_set = λ d. no_conversion;
  to_service = λ o. no_conversion;
  from_service = λ d. no_conversion;
  to_service_account = λ o. no_conversion;
  from_service_account = λ d. no_conversion;
  labels_merge = λ l m. m;
}

abbrev object_client : ObjectClient ManagedResource ℕ ℕ
object_client = record {
  registration = λ k. Registration.unregistered;
  get_typed = λ o w. (no_conversion, w);
  get = λ o w. (ok (object_with []), w);
  convert = λ t. no_conversion;
  create = λ o w. (ok o, w);
  update = λ o w. (ok o, w);
  delete = λ o w. (ok tt, w);
  deep_equal = λ o o'. false;
}

abbrev pub applier : Applier ManagedResource ℕ ℕ ℕ
applier = record {
  client = object_client;
  nested = plain;
  scheme = scheme;
  autoscalers = λ w. autoscalers;
  always_update = false;
  retry_on_conflict = λ fn. fn;
}

abbrev finalizing : Finalizing ManagedResource ManagedResource
finalizing = record {
  finalizers = λ o. o.finalizers;
  set_finalizers = λ fs o. record o { finalizers = fs };
  get = λ o w. (ok w, w);
  patch = λ before o w. (ok o, o);
  retry_on_conflict = λ fn. fn;
}

pub finalizing-IsFinalizing : IsFinalizing finalizing
finalizing-IsFinalizing = record {
  finalizers-set_finalizers = λ fs o. refl;
  patched = λ before o answer w e. ap (λ x. x.finalizers) (sym (ok_injective e));
  retried = λ fn s. (s, refl);
}

-- One secret with one key and no documents.
abbrev pub reconciler : Reconciler ManagedResource ℕ ℕ ℕ
reconciler = record {
  class = new_class_filter "";
  cluster_id = "";
  sync_period = 60;
  get = λ namespace name w. (ok w, w);
  get_secret = λ namespace name w. (ok (("objects.yaml", "") ∷ []), w);
  status_client = λ namespace name. status_client_of (λ w. w) (λ o w. o);
  finalizing = finalizing;
  target = target;
  applier = applier;
  mapping = λ w k. Mapping.namespaced;
  decode = λ text. [];
  sort = λ s. s;
  references_equal = λ refs refs'. false;
}
