-- ===== src/Reconciler/Labels.antt =====
-- pkg/controller/managedresource/reconciler.go: injectLabels, into an object's own labels, those of
-- its pod template and those of its volume claim templates.
use gardener_resource_manage.Prelude.{
  String, Bool, true, false, Option, none, some, List, [], ◌∷◌, ◌≡◌, refl, sym, ◌∙◌, inl, inr,
  arith,
}
use gardener_resource_manage.Prelude.Tests.{string_eq, if◌then◌else◌, Bool-cases}
use gardener_resource_manage.Prelude.Lists.{All}
use gardener_resource_manage.Prelude.Dict.{lookup, insert_all, lookup-insert_all}
use gardener_resource_manage.Errors.{Result, ok, err, errorf, ◌>>=◌, Result-cases, ok_injective}
use mathlib.Core.Path.{subst}
use gardener_resource_manage.Api.Types.{StringMap}
use gardener_resource_manage.Objects.{Unstructured, get_labels, set_labels, entries}
use gardener_resource_manage.Merge.{merge_maps, lookup-merge_maps}
pub mod Laws

-- The nested fields of an object's content `C` with claim templates `V`, as the functions of the
-- package unstructured read and write them. A field that is absent is `none`.
pub record Nested (C V : Type 0) : Type 0 where
  pub has_template : C → Result Bool
  pub template_labels : C → Result (Option StringMap)
  pub set_template_labels : StringMap → C → Result C
  pub claim_templates : C → Result (Option (List V))
  pub set_claim_templates : List V → C → Result C
  pub is_map : V → Bool
  pub claim_labels : V → Result (Option StringMap)
  pub set_claim_labels : StringMap → V → Result V

unfoldable pub merge_labels : Option StringMap → StringMap → StringMap
merge_labels none labels = labels
merge_labels (some existing) labels = insert_all labels (insert_all existing [])

module _ {C V : Type 0} (n : Nested C V) where
  abbrev pub inject_into_template : StringMap → C → Bool → Result C
  inject_into_template labels c false = ok c
  inject_into_template labels c true =
      n.template_labels c >>= λ old. n.set_template_labels (merge_labels old labels) c

  unfoldable pub inject_labels_into_pod_template : StringMap → C → Result C
  inject_labels_into_pod_template labels c = n.has_template c >>= inject_into_template labels c

  unfoldable pub inject_into_claim : StringMap → V → Result V
  inject_into_claim labels v =
      if n.is_map v
      then (n.claim_labels v >>= λ old. n.set_claim_labels (merge_labels old labels) v)
      else err (
          errorf
            "failed to inject labels into .spec.volumeClaimTemplates, is not a map[string]interface{}")

  unfoldable pub inject_into_claims : StringMap → List V → Result (List V)
  unfolding inject_into_claim
  inject_into_claims labels [] = ok []
  inject_into_claims labels (v ∷ vs) =
      inject_into_claim labels v >>= λ v'. inject_into_claims labels vs >>= λ vs'. ok (v' ∷ vs')

  abbrev pub inject_into_found : StringMap → C → Option (List V) → Result C
  inject_into_found labels c none = ok c
  inject_into_found labels c (some vs) =
      inject_into_claims labels vs >>= λ vs'. n.set_claim_templates vs' c

  unfoldable pub inject_labels_into_volume_claim_template : StringMap → C → Result C
  unfolding inject_into_claims
  inject_labels_into_volume_claim_template labels c =
      n.claim_templates c >>= inject_into_found labels c

  unfoldable pub inject_labels : Unstructured C → StringMap → Result (Unstructured C)
  unfolding inject_labels_into_pod_template inject_labels_into_volume_claim_template
  inject_labels o [] = ok o
  inject_labels o (kv ∷ kvs) = inject_labels_into_pod_template (kv ∷ kvs) o.content >>= λ c.
      inject_labels_into_volume_claim_template (kv ∷ kvs) c >>= λ c'. ok (
        set_labels (some (merge_maps (entries (get_labels o)) (kv ∷ kvs)))
          (record o { content = c' }))
