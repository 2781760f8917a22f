-- ===== src/Filter.antt =====
-- pkg/filter/filter.go: which ManagedResources an instance with a resource class handles.
use text.Mathlib.Text.{starts_with}
use gardener_resource_manage.Prelude.{
  String, Bool, true, false, ◌&&◌, ◌||◌, not, Option, none, some, List, [], ◌∷◌,
}
use gardener_resource_manage.Prelude.Tests.{◌==◌, string_eq, if◌then◌else◌}
use gardener_resource_manage.Errors.{◌+++◌}
use gardener_resource_manage.Api.Types.{ManagedResource}
pub mod Laws

abbrev pub default_class : String
default_class = "resources"

abbrev pub base_finalizer : String
base_finalizer = "resources.gardener.cloud/gardener-resource-manager"

pub record ClassFilter : Type 0 where
  pub resource_class : String
  pub finalizer : String

unfoldable pub new_class_filter : String → ClassFilter
new_class_filter class =
    let chosen = if class == "" then default_class else class in
    record {
      resource_class = chosen;
      finalizer =
          if chosen == default_class then base_finalizer else base_finalizer +++ ("-" +++ chosen);
    }

-- The class of the object, "" where it has none.
abbrev pub class_of : Option String → String
class_of none = ""
class_of (some class) = if not (class == "") then class else ""

unfoldable pub responsible : ClassFilter → ManagedResource → Bool
responsible f mr =
    let c = class_of mr.spec.class in
    c == f.resource_class || (c == "" && f.resource_class == default_class)

-- The loop of Active over the finalizers: `some action` is its return inside the loop, `none` with
-- `busy` when it ends.
abbrev pub scan : ClassFilter → Bool → List String → Bool × Bool
scan f busy [] = (false, busy)
scan f busy (finalizer ∷ finalizers) =
    if starts_with finalizer base_finalizer
    then (if finalizer == f.finalizer then (true, true) else scan f true finalizers)
    else scan f busy finalizers

-- Returns `action` and `responsible`.
unfoldable pub active : ClassFilter → ManagedResource → Bool × Bool
unfolding responsible
active f mr =
    let r = responsible f mr in
    let (own, busy) = scan f false mr.finalizers in (own || (not busy && r), r)

-- The predicate on every event: create, update (the new object), delete and generic.
unfoldable pub relevant : ClassFilter → ManagedResource → Bool
unfolding active
relevant f mr = let (action, r) = active f mr in action || r
