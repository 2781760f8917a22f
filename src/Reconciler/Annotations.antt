-- ===== src/Reconciler/Annotations.antt =====
-- pkg/controller/managedresource/reconciler.go: the annotations by which an object asks to be
-- ignored, deleted or kept, the origin, and the description of an object in messages.
use gardener_resource_manage.Prelude.{String, Bool, false, ◌||◌, Option, none, some}
use gardener_resource_manage.Prelude.Tests.{◌==◌, string_eq, if◌then◌else◌}
use gardener_resource_manage.Prelude.Dict.{lookup}
use gardener_resource_manage.Errors.{◌+++◌}
use gardener_resource_manage.Api.Types.{
  GroupVersionKind, StringMap, ManagedResource, ignore_annotation, keep_object_annotation,
  delete_on_invalid_update_annotation,
}
use gardener_resource_manage.Objects.{Unstructured, get_name, get_namespace, get_annotations}
use gardener_resource_manage.Keys.{object_key}

-- strconv.ParseBool, which gives false beside its error.
unfoldable pub parse_bool : String → Bool
parse_bool s = s == "1" || s == "t" || s == "T" || s == "TRUE" || s == "true" || s == "True"

unfoldable pub annotation_exists_and_value_true : Option StringMap → String → Bool
unfolding parse_bool
annotation_exists_and_value_true none key = false
annotation_exists_and_value_true (some annotations) key = elim (lookup key annotations) [
  | some val ↦ parse_bool val
  | none ↦ false
]

module _ {C : Type 0} where
  unfoldable pub ignore : Unstructured C → Bool
  ignore o = annotation_exists_and_value_true (get_annotations o) ignore_annotation

  unfoldable pub delete_on_invalid_update : Unstructured C → Bool
  delete_on_invalid_update o =
      annotation_exists_and_value_true (get_annotations o) delete_on_invalid_update_annotation

  unfoldable pub keep_object : Unstructured C → Bool
  keep_object o = annotation_exists_and_value_true (get_annotations o) keep_object_annotation

-- The text of an `apiVersion`.
unfoldable pub api_version : GroupVersionKind → String
api_version gvk = if gvk.group == "" then gvk.version else gvk.group +++ ("/" +++ gvk.version)

unfoldable pub unstructured_to_string : {C : Type 0} → Unstructured C → String
unfolding api_version
unstructured_to_string o = object_key (api_version o.gvk) o.gvk.kind (get_namespace o) (get_name o)

-- The first argument is the cluster's identity.
unfoldable pub origin : String → ManagedResource → String
origin cluster_id mr =
    let own = mr.namespace +++ ("/" +++ mr.name) in
    if cluster_id == "" then own else cluster_id +++ (":" +++ own)
