-- ===== src/Health/Types.antt =====
-- What pkg/health reads of the objects that it checks, and the errors that it returns.
use gardener_resource_manage.Prelude.{String, Option, List}
use gardener_resource_manage.Prelude.Int.{ℤ}
use gardener_resource_manage.Errors.{Error, Result}

-- One constructor for each text of pkg/health/health.go, with the values that are printed.
pub data HealthError : Type 0 where
  observed_generation_outdated : ℤ → ℤ → HealthError
  not_reported_yet : String → HealthError
  condition_is : String → String → String → HealthError
  required_condition_missing : String → HealthError
  invalid_status : String → String → String → String → String → HealthError
  not_enough_scheduled : ℤ → ℤ → HealthError
  misscheduled : ℤ → HealthError
  too_many_unavailable : ℤ → ℤ → ℤ → HealthError
  unready : ℤ → ℤ → ℤ → HealthError
  invalid_phase : String → HealthError
  no_minimum_availability : String → HealthError
  not_enough_ready : ℤ → ℤ → HealthError
  not_converted : Error → HealthError

-- `none` is the nil error.
abbrev pub Check : Type 0
Check = Option HealthError

-- The conditions of CRDs, Deployments and Jobs have the same fields.
pub record Condition : Type 0 where
  pub type : String
  pub status : String
  pub reason : String
  pub message : String

pub record CustomResourceDefinition : Type 0 where
  pub conditions : List Condition

-- `max_unavailable` is what intstr.GetValueFromIntOrPercent makes of the setting, or its error.
pub record DaemonSet : Type 0 where
  pub generation : ℤ
  pub observed_generation : ℤ
  pub current_number_scheduled : ℤ
  pub desired_number_scheduled : ℤ
  pub number_misscheduled : ℤ
  pub number_unavailable : ℤ
  pub number_ready : ℤ
  pub updated_number_scheduled : ℤ
  pub update_strategy_type : String
  pub rolling_update : Option (ℤ → Result ℤ)

pub record DeploymentStatus : Type 0 where
  pub generation : ℤ
  pub observed_generation : ℤ
  pub conditions : List Condition

pub record JobStatus : Type 0 where
  pub conditions : List Condition

pub record PodStatus : Type 0 where
  pub phase : String

-- A ReplicaSet, a ReplicationController or a StatefulSet.
pub record ReplicaStatus : Type 0 where
  pub generation : ℤ
  pub observed_generation : ℤ
  pub replicas : Option ℤ
  pub ready_replicas : ℤ
