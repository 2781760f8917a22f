-- ===== src/Merge/Kinds.antt =====
-- mergeDeployment, mergeJob, mergeStatefulSet and mergeServiceAccount, each between two conversions
-- of the scheme.
use gardener_resource_manage.Prelude.{
  Bool, true, false, ◌||◌, ◌&&◌, ◌⊎◌, not, none, ◌≡◌, ◌≢◌, arith,
}
use gardener_resource_manage.Prelude.Tests.{if◌then◌else◌}
use gardener_resource_manage.Prelude.Dict.{is_some}
use gardener_resource_manage.Errors.{Result, ◌>>=◌}
use gardener_resource_manage.Objects.{
  Unstructured, Deployment, Job, StatefulSet, ServiceAccount, Scheme,
}
use gardener_resource_manage.Merge.Pods.{merge_pod_template}

module _ {C : Type 0} where
  unfoldable pub merged_deployment : Deployment C → Deployment C → Bool → Bool → Deployment C
  merged_deployment old new preserve_replicas preserve_resources = record new {
    replicas =
        if not (is_some new.replicas) || preserve_replicas then old.replicas else new.replicas;
    template = merge_pod_template old.template new.template preserve_resources;
  }

  -- The template that the StatefulSet's own rule merges into is the old one.
  unfoldable pub merged_stateful_set :
      StatefulSet C → StatefulSet C → Bool → Bool → StatefulSet C × StatefulSet C
  merged_stateful_set old new preserve_replicas preserve_resources = (
    record old { template = merge_pod_template old.template old.template preserve_resources },
    record new {
      replicas =
          if not (is_some new.replicas) || preserve_replicas then old.replicas else new.replicas;
      volume_claim_templates =
          if is_some old.creation_timestamp
          then old.volume_claim_templates
          else new.volume_claim_templates;
    },
  )

  unfoldable pub merged_service_account : ServiceAccount C → ServiceAccount C → ServiceAccount C
  merged_service_account old new = record new {
    secrets = old.secrets;
    image_pull_secrets = old.image_pull_secrets;
  }

module _ {C : Type 0} (scheme : Scheme C) where
  unfoldable pub merged_job : Job C → Job C → Job C
  merged_job old new = record new {
    selector =
        if not (is_some new.selector) && is_some old.selector then old.selector else new.selector;
    template = record new.template {
      labels = scheme.labels_merge old.template.labels new.template.labels;
    };
  }

  unfoldable pub merge_deployment :
      Unstructured C → Unstructured C → Bool → Bool → Result (Unstructured C)
  unfolding merged_deployment
  merge_deployment old_obj new_obj preserve_replicas preserve_resources = do
    old ← scheme.to_deployment old_obj
    new ← scheme.to_deployment new_obj
    scheme.from_deployment (merged_deployment old new preserve_replicas preserve_resources)

  unfoldable pub merge_job : Unstructured C → Unstructured C → Result (Unstructured C)
  unfolding merged_job
  merge_job old_obj new_obj = do
    old ← scheme.to_job old_obj
    new ← scheme.to_job new_obj
    scheme.from_job (merged_job old new)

  unfoldable pub merge_stateful_set :
      Unstructured C → Unstructured C → Bool → Bool → Result (Unstructured C)
  unfolding merged_stateful_set
  merge_stateful_set old_obj new_obj preserve_replicas preserve_resources = do
    old ← scheme.to_stateful_set old_obj
    new ← scheme.to_stateful_set new_obj
    scheme.from_stateful_set (merged_stateful_set old new preserve_replicas preserve_resources).1

  unfoldable pub merge_service_account : Unstructured C → Unstructured C → Result (Unstructured C)
  unfolding merged_service_account
  merge_service_account old_obj new_obj = do
    old ← scheme.to_service_account old_obj
    new ← scheme.to_service_account new_obj
    scheme.from_service_account (merged_service_account old new)

module _ {C : Type 0} where
  -- A merged Deployment has the old replicas if it is scaled or the new ones are unset, and the new
  -- ones otherwise; the same holds of a StatefulSet.
  pub merged_replicas :
      (old new : Deployment C) (old_set new_set : StatefulSet C)
      (preserve preserve_resources : Bool)
      → ((preserve ≡ true) ⊎ (new.replicas ≡ none)
          → (merged_deployment old new preserve preserve_resources).replicas ≡ old.replicas)
        × ((preserve ≡ false)
            → (new.replicas ≢ none)
            → (merged_deployment old new preserve preserve_resources).replicas ≡ new.replicas)
        × ((preserve ≡ true) ⊎ (new_set.replicas ≡ none)
            → (merged_stateful_set old_set new_set preserve preserve_resources).1.replicas
              ≡ old_set.replicas)
        × ((preserve ≡ false)
            → (new_set.replicas ≢ none)
            → (merged_stateful_set old_set new_set preserve preserve_resources).1.replicas
              ≡ new_set.replicas)
  unfolding merged_deployment merged_stateful_set
  merged_replicas old new old_set new_set preserve preserve_resources =
      (λ h. ground arith, λ h n. ground arith, λ h. ground arith, λ h n. ground arith)
