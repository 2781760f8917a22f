-- ===== src/Tests/Indexes.antt =====
-- Keys, equivalences and the index of old objects.
use gardener_resource_manage.Prelude.{
  String, true, List, [], ◌∷◌, ◌≡◌, refl, ap, inl, inr, false, arith,
}
use gardener_resource_manage.Prelude.Lists.{contains, Any}
use gardener_resource_manage.Prelude.Tests.{string_eq, ne_of_beq}
use gardener_resource_manage.Prelude.Dict.{lookup, insert}
use gardener_resource_manage.Api.Types.{GroupKind, ObjectReference, group_kind_eq, group_kind_beq}
use gardener_resource_manage.Keys.{object_key, key_namespace, object_key_by_reference}
use gardener_resource_manage.Keys.Injectivity.{object_key_injective, no_slash}
use gardener_resource_manage.Equivalences.{
  default_equivalences, add_all, existing_set, new_equivalences, add_equivalent_group_kinds,
  get_equivalences_for, update_at, set_insert,
}
use gardener_resource_manage.Equivalences.Partition.{
  AllCompatible, IsPartition, new_equivalences-IsPartition, bridge_asymmetric,
}
use gardener_resource_manage.ObjectIndex.{new_object_index, is_found, lookup_keys, lookup_reference}
use gardener_resource_manage.ObjectIndex.Laws.{lookup_all, lookup_all_keeps, found_only_if_desired}
use gardener_resource_manage.Tests.Data.{gk, gvk, deployment_ref, config_ref}

object_key_injective_example :
    ◌≡◌ {A = String} "apps" "apps"
    × ◌≡◌ {A = String} "Deployment" "Deployment"
    × (key_namespace "Deployment" "" ≡ key_namespace "Deployment" "default")
    × ◌≡◌ {A = String} "web" "web"
unfolding object_key key_namespace no_slash
object_key_injective_example =
    object_key_injective "apps" "Deployment" "" "web" "apps" "Deployment" "default" "web" refl refl
      refl refl refl refl refl

-- The kinds of an Ingress in its two groups.
abbrev old_ingress : GroupKind
old_ingress = gk "extensions" "Ingress"

abbrev new_ingress : GroupKind
new_ingress = gk "networking.k8s.io" "Ingress"

-- A list that adds a GroupKind to the set of the Deployments, and one of two new GroupKinds.
abbrev further : List (List GroupKind)
further =
    (gk "apps" "Deployment" ∷ (gk "mine.org" "Deployment" ∷ []))
    ∷ ((gk "mine.org" "One" ∷ (gk "mine.org" "Two" ∷ [])) ∷ [])

further-AllCompatible : AllCompatible (new_equivalences []) further
unfolding new_equivalences default_equivalences add_all existing_set lookup insert
    add_equivalent_group_kinds group_kind_beq
further-AllCompatible = (λ m h. (inr h, (inl refl, tt)), (λ m h. (inl refl, (inl refl, tt)), tt))

new_equivalences-IsPartition_example : IsPartition (new_equivalences further)
new_equivalences-IsPartition_example = new_equivalences-IsPartition further further-AllCompatible

-- A user's list that joins the Deployments of apps and the old Ingresses.
bridge_asymmetric_example :
    (contains old_ingress (
        get_equivalences_for
          (add_equivalent_group_kinds
            (new_equivalences [])
            (gk "apps" "Deployment" ∷ old_ingress ∷ []))
          new_ingress)
      ≡ true)
    × (contains new_ingress (
          get_equivalences_for
            (add_equivalent_group_kinds
              (new_equivalences [])
              (gk "apps" "Deployment" ∷ old_ingress ∷ []))
            old_ingress)
        ≡ false)
unfolding new_equivalences lookup insert group_kind_beq update_at
bridge_asymmetric_example =
    bridge_asymmetric (new_equivalences []) (gk "apps" "Deployment") old_ingress new_ingress 0 4
      (new_equivalences-IsPartition [] tt) refl refl refl (λ e. omega arith)
      (λ e. ne_of_beq "networking.k8s.io" "extensions" refl (ap (λ g. g.group) e))

-- The old objects are both, the wanted one is the Deployment under another group.
abbrev old_refs : List ObjectReference
old_refs = deployment_ref ∷ config_ref ∷ []

abbrev wanted : ObjectReference
wanted = record deployment_ref { gvk = gvk "extensions" "v1beta1" "Deployment" }

found_only_if_desired_example :
    Any
      (λ ref.
        contains
          (object_key_by_reference deployment_ref)
          (lookup_keys (new_object_index old_refs (new_equivalences [])) ref)
        ≡ true)
      (wanted ∷ [])
unfolding new_object_index lookup_reference is_found new_equivalences get_equivalences_for contains
    object_key_by_reference object_key key_namespace lookup insert group_kind_beq update_at
    set_insert
found_only_if_desired_example =
    found_only_if_desired old_refs (wanted ∷ []) (new_equivalences []) deployment_ref refl

lookup_all_keeps_example :
    is_found
      (lookup_all (new_object_index old_refs (new_equivalences [])) (config_ref ∷ []))
      config_ref
    ≡ true
unfolding new_object_index new_equivalences object_key_by_reference object_key key_namespace lookup
    insert update_at set_insert group_kind_beq get_equivalences_for contains lookup_reference
lookup_all_keeps_example =
    lookup_all_keeps (new_object_index old_refs (new_equivalences [])) (config_ref ∷ []) config_ref
      refl (inl refl)
