-- ===== src/Health/Criteria.antt =====
-- When each kind of object is healthy, as one condition on its status.
use gardener_resource_manage.Prelude.{
  String, none, some, [], ◌∷◌, ◌≡◌, ◌↔◌, ◌⊎◌, inl, inr, refl, arith,
}
use gardener_resource_manage.Prelude.Int.{ℤ, pos, int_eq, ◌≤ℤ◌}
use gardener_resource_manage.Prelude.Tests.{string_eq, Option-cases}
use gardener_resource_manage.Health.Types.{Check, DeploymentStatus, ReplicaStatus}
use gardener_resource_manage.Health.Checks.{
  ◌and_then◌, check_required, check_optional, check_replicas, check_stateful_set,
}

-- The three loops of a Deployment.
abbrev deployment_loops : DeploymentStatus → Check
deployment_loops d =
    check_required "True" d.conditions ("Available" ∷ [])
    and_then check_optional "True" d.conditions ("Progressing" ∷ [])
    and_then check_optional "False" d.conditions ("ReplicaFailure" ∷ [])

-- A ReplicaSet or ReplicationController is healthy exactly if its status is not of an older
-- generation and, where a number of replicas is set, at least that many are ready. A StatefulSet is
-- healthy by the same test with 1 where none is set.
pub check_replicas_iff :
    (kind : String) (s : ReplicaStatus)
    → ((check_replicas kind s ≡ none) ↔ (
        (s.generation ≤ℤ s.observed_generation)
        × ((n : ℤ) → s.replicas ≡ some n → n ≤ℤ s.ready_replicas)))
      × ((check_stateful_set s ≡ none) ↔ (
          (s.generation ≤ℤ s.observed_generation)
          × ((n : ℤ)
              → (s.replicas ≡ some n) ⊎ ((s.replicas ≡ none) × (n ≡ pos 1))
              → n ≤ℤ s.ready_replicas)))
unfolding check_replicas check_stateful_set
check_replicas_iff kind s = (
  (
    λ h. (ground arith, λ n p. ground arith),
    λ h. elim (Option-cases s.replicas) [
      | inl p ↦ let q = h.0 in ground arith
      | inr (n, p) ↦ let q = h.0 in let r = h.1 n p in ground arith
    ],
  ),
  (
    λ h. (ground arith, λ n p. ground arith),
    λ h. elim (Option-cases s.replicas) [
      | inl p ↦ let q = h.0 in let r = h.1 (pos 1) (inr (p, refl)) in ground arith
      | inr (n, p) ↦ let q = h.0 in let r = h.1 n (inl p) in ground arith
    ],
  ),
)
