-- ===== src/Keys.antt =====
-- pkg/controller/managedresource/objectindex.go: the keys of objects, `Group/Kind/Namespace/Name`.
use gardener_resource_manage.Prelude.{String, not, ◌&&◌}
use gardener_resource_manage.Prelude.Tests.{◌==◌, string_eq, if◌then◌else◌}
use gardener_resource_manage.Errors.{◌+++◌}
use gardener_resource_manage.Api.Types.{GroupKind, ObjectReference}
pub mod Injectivity

-- metav1.NamespaceDefault
abbrev pub default_namespace : String
default_namespace = "default"

-- The namespace that a key is built with.
unfoldable pub key_namespace : String → String → String
key_namespace kind namespace =
    if not (kind == "Namespace") && namespace == "" then default_namespace else namespace

unfoldable pub object_key : String → String → String → String → String
unfolding key_namespace
object_key group kind namespace name =
    group +++ ("/" +++ (kind +++ ("/" +++ (key_namespace kind namespace +++ ("/" +++ name)))))

unfoldable pub object_key_by_reference : ObjectReference → String
unfolding object_key
object_key_by_reference o = object_key o.gvk.group o.gvk.kind o.namespace o.name

-- The GroupKind of a reference.
abbrev pub group_kind_of : ObjectReference → GroupKind
group_kind_of o = record { group = o.gvk.group; kind = o.gvk.kind }
