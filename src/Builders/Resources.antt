-- ===== src/Builders/Resources.antt =====
-- pkg/manager/managedresources.go. A setter changes the builder and returns it.
use gardener_resource_manage.Prelude.{String, Bool, none, some, List, [], ◌∷◌, ◌++◌}
use gardener_resource_manage.Prelude.Tests.{◌==◌, string_eq, if◌then◌else◌}
use gardener_resource_manage.Prelude.Int.{pos}
use gardener_resource_manage.Errors.{ok}
use gardener_resource_manage.Exec.{Exec}
use gardener_resource_manage.Api.Types.{StringMap, ManagedResource, ManagedResourceSpec}
use gardener_resource_manage.Builders.Storage.{Storage, unless_gone}

-- The zero value.
abbrev pub no_spec : ManagedResourceSpec
no_spec = record {
  class = none;
  secret_refs = [];
  inject_labels = [];
  force_overwrite_labels = none;
  force_overwrite_annotations = none;
  keep_objects = none;
  equivalences = [];
  delete_persistent_volume_claims = none;
}

-- A ManagedResource of which only the key is set.
abbrev pub named : String → String → ManagedResource
named namespace name = record {
  namespace = namespace;
  name = name;
  labels = [];
  annotations = [];
  generation = pos 0;
  finalizers = [];
  deletion_timestamp = none;
  spec = no_spec;
  status = record { conditions = []; observed_generation = pos 0; resources = [] };
}

-- The builder holds the resource; the client is an argument where it is used.
unfoldable pub new_managed_resource : ManagedResource
new_managed_resource = named "" ""

unfoldable pub with_namespaced_name : String → String → ManagedResource → ManagedResource
with_namespaced_name namespace name m = record m { namespace = namespace; name = name }

unfoldable pub with_labels : StringMap → ManagedResource → ManagedResource
with_labels labels m = record m { labels = labels }

unfoldable pub with_annotations : StringMap → ManagedResource → ManagedResource
with_annotations annotations m = record m { annotations = annotations }

unfoldable pub with_class : String → ManagedResource → ManagedResource
with_class name m = record m {
  spec = record m.spec { class = if name == "" then none else some name };
}

unfoldable pub with_secret_ref : String → ManagedResource → ManagedResource
with_secret_ref secret m = record m {
  spec = record m.spec { secret_refs = m.spec.secret_refs ++ (secret ∷ []) };
}

unfoldable pub with_secret_refs : List String → ManagedResource → ManagedResource
with_secret_refs secrets m = record m {
  spec = record m.spec { secret_refs = m.spec.secret_refs ++ secrets };
}

unfoldable pub with_injected_labels : StringMap → ManagedResource → ManagedResource
with_injected_labels labels m = record m { spec = record m.spec { inject_labels = labels } }

unfoldable pub force_overwrite_annotations : Bool → ManagedResource → ManagedResource
force_overwrite_annotations v m = record m {
  spec = record m.spec { force_overwrite_annotations = some v };
}

unfoldable pub force_overwrite_labels : Bool → ManagedResource → ManagedResource
force_overwrite_labels v m = record m { spec = record m.spec { force_overwrite_labels = some v } }

unfoldable pub keep_objects : Bool → ManagedResource → ManagedResource
keep_objects v m = record m { spec = record m.spec { keep_objects = some v } }

unfoldable pub delete_persistent_volume_claims : Bool → ManagedResource → ManagedResource
delete_persistent_volume_claims v m = record m {
  spec = record m.spec { delete_persistent_volume_claims = some v };
}

-- The function under CreateOrUpdate.
abbrev pub built : ManagedResource → Exec ManagedResource (Unit {0})
built m resource =
    (ok tt, record resource { labels = m.labels; annotations = m.annotations; spec = m.spec })

module _ {W : Type 0} (s : Storage W ManagedResource) where
  unfoldable pub reconcile : ManagedResource → Exec W (Unit {0})
  reconcile m = s.create_or_update (built m) (named m.namespace m.name)

  unfoldable pub delete : ManagedResource → Exec W (Unit {0})
  delete m w = unless_gone (s.delete m w)
