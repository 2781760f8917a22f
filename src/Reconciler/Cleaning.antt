-- ===== src/Reconciler/Cleaning.antt =====
-- pkg/controller/managedresource/reconciler.go: cleanOldResources. The goroutines, one for each old
-- object that was not found again, run one after the other in the order of the index; what other
-- clients do in between is part of each call's step of the world.
use gardener_resource_manage.Prelude.{
  String, Bool, true, false, not, ◌&&◌, ◌||◌, Option, none, some, List, [], ◌∷◌, ◌++◌,
}
use gardener_resource_manage.Prelude.Tests.{◌==◌, string_eq, if◌then◌else◌}
use gardener_resource_manage.Prelude.Lists.{contains}
use gardener_resource_manage.Prelude.Dict.{Dict}
use gardener_resource_manage.Errors.{
  Error, Result, ok, err, errorf, quoted, is_not_found, is_no_match, ◌+++◌,
}
use gardener_resource_manage.Exec.{Exec}
use gardener_resource_manage.Api.Types.{ObjectReference, ManagedResource}
use gardener_resource_manage.Keys.{object_key}
use gardener_resource_manage.Objects.{Unstructured}
use gardener_resource_manage.ObjectIndex.{ObjectIndex, is_found}
use gardener_resource_manage.Reconciler.Annotations.{keep_object, api_version}
use gardener_resource_manage.Reconciler.Cleaner.{TargetClient, cleanup}
pub mod Laws
pub mod Deletions
pub mod Concurrent
pub mod Gone

pub record Output : Type 0 where
  pub resource : String
  pub deletion_pending : Bool
  pub error : Option Error

-- The text for an object that has only what the reference says.
abbrev pub resource_text : ObjectReference → String
resource_text ref = object_key (api_version ref.gvk) ref.gvk.kind ref.namespace ref.name

abbrev pub foreground_deletion_api_groups : List String
foreground_deletion_api_groups = "apps" ∷ "extensions" ∷ "batch" ∷ []

-- An error that says the object is gone is none.
unfoldable pub is_gone : Error → Bool
is_gone e = is_not_found e || is_no_match e

abbrev pub failure : String → Error → Output
failure resource e = record { resource = resource; deletion_pending = true; error = some e }

abbrev pub finished : String → Output
finished resource = record { resource = resource; deletion_pending = false; error = none }

abbrev pub gone_or_failure : String → Error → Output
gone_or_failure resource e = if is_gone e then finished resource else failure resource e

module _ {W C : Type 0} (client : TargetClient W C) (delete_pvcs : Bool) where
  abbrev pub after_delete : String → Result (Unit {0}) × W → Output × W
  after_delete resource (err e, w) = (gone_or_failure resource e, w)
  after_delete resource (ok _, w) =
      (record { resource = resource; deletion_pending = true; error = none }, w)

  abbrev pub after_cleanup : String → Unstructured C → Result (Unit {0}) × W → Output × W
  after_cleanup resource o (err e, w) = (failure resource e, w)
  after_cleanup resource o (ok _, w) =
      after_delete resource
        (client.delete (contains o.gvk.group foreground_deletion_api_groups) o w)

  abbrev pub after_get : String → Result (Unstructured C) × W → Output × W
  after_get resource (err e, w) = (gone_or_failure resource e, w)
  after_get resource (ok o, w) =
      if keep_object o
      then (finished resource, w)
      else after_cleanup resource o (cleanup client o delete_pvcs w)

  -- One goroutine.
  unfoldable pub clean_one : ObjectReference → W → Output × W
  clean_one ref w = after_get (resource_text ref) (client.get ref w)

  abbrev pub with_output : Output × W → (W → List Output × W) → List Output × W
  with_output (out, w) rest = let (outs, w') = rest w in (out ∷ outs, w')

  -- The results of the goroutines of all objects that the index does not mark as found.
  unfoldable pub clean_all : ObjectIndex → Dict String ObjectReference → W → List Output × W
  unfolding clean_one
  clean_all index [] w = ([], w)
  clean_all index ((key, ref) ∷ objects) w =
      let rest = clean_all index objects in
      if is_found index ref then rest w else with_output (clean_one ref w) rest

-- The loop over the results.
abbrev pub pending_text : Output → String
pending_text out = elim out.error [
  | none ↦ "deletion of old resource " +++ (quoted out.resource +++ " is still pending")
  | some e ↦
      "deletion of old resource "
      +++ (quoted out.resource +++ (" is still pending: " +++ e.message))
]

unfoldable pub errors_of : Output → List Error
errors_of out = if out.deletion_pending then errorf (pending_text out) ∷ [] else elim out.error [
  | none ↦ []
  | some e ↦
      errorf (
        "error during deletion of old resource " +++ (quoted out.resource +++ (": " +++ e.message)))
      ∷ []
]

unfoldable pub collect : List Output → Bool × List Error
unfolding errors_of
collect [] = (false, [])
collect (out ∷ outs) =
    let (pending, errors) = collect outs in
    (out.deletion_pending || pending, errors_of out ++ errors)

abbrev pub deletes_claims : ManagedResource → Bool
deletes_claims mr = elim mr.spec.delete_persistent_volume_claims [ some b ↦ b | none ↦ false ]

abbrev pub collected : {W : Type 0} → List Output × W → (Bool × List Error) × W
collected (outs, w) = (collect outs, w)

-- The flag `deletionPending` and the list of errors.
unfoldable pub clean_old_resources :
    {W C : Type 0} → TargetClient W C → ObjectIndex → ManagedResource → W → (Bool × List Error) × W
unfolding clean_all collect
clean_old_resources client index mr w =
    collected (clean_all client (deletes_claims mr) index index.index w)
