-- ===== src/Health/Checks.antt =====
-- pkg/health/health.go: the checks of the kinds.
pub mod Loops
use Prim.Native.Nat.{ℕ, ◌-◌, ◌%◌, ◌^◌}
use gardener_resource_manage.Prelude.{
  String, Bool, true, false, not, ◌||◌, Option, none, some, List, [], ◌∷◌,
}
use gardener_resource_manage.Prelude.Int.{ℤ, pos, negsuc, ltb_ℤ, int_eq}
use gardener_resource_manage.Prelude.Tests.{ltb, ◌==◌, string_eq, if◌then◌else◌}
use gardener_resource_manage.Prelude.Lists.{find_first, contains}
use gardener_resource_manage.Errors.{ok, err}
use gardener_resource_manage.Health.Types.{
  HealthError, observed_generation_outdated, required_condition_missing, invalid_status,
  not_enough_scheduled, misscheduled, too_many_unavailable, unready, invalid_phase,
  no_minimum_availability, not_enough_ready, Check, Condition, CustomResourceDefinition, DaemonSet,
  DeploymentStatus, JobStatus, PodStatus, ReplicaStatus,
}

-- if err := first; err != nil { return err }; return second
infixr 20 ◌and_then◌
abbrev pub ◌and_then◌ : Check → Check → Check
none and_then second = second
some e and_then second = some e

-- getCustomResourceDefinitionCondition, getDeploymentCondition and getJobCondition
unfoldable pub get_condition : List Condition → String → Option Condition
unfolding find_first
get_condition conditions condition_type = find_first (λ c. c.type == condition_type) conditions

unfoldable pub check_condition_state : String → String → String → String → String → Check
check_condition_state condition_type expected actual reason message =
    if not (expected == actual)
    then some (invalid_status condition_type actual expected reason message)
    else none

abbrev pub check_state : String → String → Condition → Check
check_state condition_type expected c =
    check_condition_state condition_type expected c.status c.reason c.message

unfoldable pub required_state : String → String → Option Condition → Check
required_state expected t none = some (required_condition_missing t)
required_state expected t (some c) = check_state t expected c

unfoldable pub optional_state : String → String → Option Condition → Check
optional_state expected t none = none
optional_state expected t (some c) = check_state t expected c

-- A loop over the condition types that must be there.
unfoldable pub check_required : String → List Condition → List String → Check
unfolding get_condition check_condition_state required_state
check_required expected conditions [] = none
check_required expected conditions (t ∷ types) =
    required_state expected t (get_condition conditions t)
    and_then check_required expected conditions types

-- A loop over the condition types that may be missing.
unfoldable pub check_optional : String → List Condition → List String → Check
unfolding get_condition check_condition_state optional_state
check_optional expected conditions [] = none
check_optional expected conditions (t ∷ types) =
    optional_state expected t (get_condition conditions t)
    and_then check_optional expected conditions types

unfoldable pub check_custom_resource_definition : CustomResourceDefinition → Check
unfolding check_required check_optional
check_custom_resource_definition crd =
    check_required "True" crd.conditions ("NamesAccepted" ∷ "Established" ∷ [])
    and_then check_optional "False" crd.conditions ("Terminating" ∷ [])

-- int32(x): the low 32 bits, read as a signed number.
unfoldable pub signed : ℕ → ℤ
signed w = if ltb w (2 ^ 31) then pos w else negsuc (2 ^ 32 - 1 - w)

unfoldable pub int32 : ℤ → ℤ
unfolding signed
int32 (pos n) = signed (n % 2 ^ 32)
int32 (negsuc n) = signed (2 ^ 32 - 1 - n % 2 ^ 32)

unfoldable pub daemon_set_max_unavailable : DaemonSet → ℤ
unfolding int32
daemon_set_max_unavailable ds =
    if ds.desired_number_scheduled == pos 0 || not (ds.update_strategy_type == "RollingUpdate")
    then pos 0
    else elim ds.rolling_update [
      | none ↦ pos 0
      | some value_of ↦ elim (value_of ds.desired_number_scheduled) [
        | ok max_unavailable ↦ int32 max_unavailable
        | err e ↦ pos 0
      ]
    ]

unfoldable pub check_daemon_set : DaemonSet → Check
unfolding daemon_set_max_unavailable
check_daemon_set ds =
    let max_unavailable = daemon_set_max_unavailable ds in
    if ltb_ℤ ds.observed_generation ds.generation
    then some (observed_generation_outdated ds.observed_generation ds.generation)
    else if ltb_ℤ ds.current_number_scheduled ds.desired_number_scheduled
    then some (not_enough_scheduled ds.current_number_scheduled ds.desired_number_scheduled)
    else if ltb_ℤ (pos 0) ds.number_misscheduled
    then some (misscheduled ds.number_misscheduled)
    else if ltb_ℤ max_unavailable ds.number_unavailable
    then some
        (too_many_unavailable ds.number_unavailable ds.current_number_scheduled max_unavailable)
    else if ltb_ℤ ds.number_ready ds.desired_number_scheduled
    then some (unready ds.number_ready ds.desired_number_scheduled ds.updated_number_scheduled)
    else none

unfoldable pub check_deployment : DeploymentStatus → Check
unfolding check_required check_optional
check_deployment d =
    if ltb_ℤ d.observed_generation d.generation
    then some (observed_generation_outdated d.observed_generation d.generation)
    else check_required "True" d.conditions ("Available" ∷ [])
      and_then check_optional "True" d.conditions ("Progressing" ∷ [])
      and_then check_optional "False" d.conditions ("ReplicaFailure" ∷ [])

unfoldable pub check_job : JobStatus → Check
unfolding get_condition check_condition_state optional_state
check_job job = optional_state "False" "Failed" (get_condition job.conditions "Failed")

unfoldable pub check_pod : PodStatus → Check
check_pod pod =
    if pod.phase == "Running" || pod.phase == "Succeeded"
    then none
    else some (invalid_phase pod.phase)

-- CheckReplicaSet and CheckReplicationController
unfoldable pub check_replicas : String → ReplicaStatus → Check
check_replicas kind rs =
    if ltb_ℤ rs.observed_generation rs.generation
    then some (observed_generation_outdated rs.observed_generation rs.generation)
    else elim rs.replicas [
      | none ↦ none
      | some replicas ↦
          if ltb_ℤ rs.ready_replicas replicas then some (no_minimum_availability kind) else none
    ]

abbrev pub check_replica_set : ReplicaStatus → Check
check_replica_set = check_replicas "ReplicaSet"

abbrev pub check_replication_controller : ReplicaStatus → Check
check_replication_controller = check_replicas "ReplicationController"

unfoldable pub check_stateful_set : ReplicaStatus → Check
check_stateful_set s =
    let replicas : ℤ = elim s.replicas [ none ↦ pos 1 | some replicas ↦ replicas ] in
    if ltb_ℤ s.observed_generation s.generation
    then some (observed_generation_outdated s.observed_generation s.generation)
    else if ltb_ℤ s.ready_replicas replicas
    then some (not_enough_ready s.ready_replicas replicas)
    else none
