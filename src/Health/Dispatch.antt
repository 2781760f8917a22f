-- ===== src/Health/Dispatch.antt =====
-- pkg/controller/health/health_checker.go: the check for the kind of an object. `O` is the type of
-- runtime objects; the conversions are the scheme's.
use gardener_resource_manage.Prelude.{String, none, some}
use gardener_resource_manage.Prelude.Tests.{◌==◌, string_eq, if◌then◌else◌}
use gardener_resource_manage.Errors.{Result, ok, err, ◌>>=◌}
use gardener_resource_manage.Api.Types.{GroupKind, GroupVersionKind, group_kind_eq}
use gardener_resource_manage.Health.Types.{
  not_converted, Check, CustomResourceDefinition, DaemonSet, DeploymentStatus, JobStatus, PodStatus,
  ReplicaStatus,
}
use gardener_resource_manage.Health.Checks.{
  check_custom_resource_definition, check_daemon_set, check_deployment, check_job, check_pod,
  check_replica_set, check_replication_controller, check_stateful_set,
}

-- scheme.Convert, for each type that CheckHealth converts to.
pub record HealthScheme (O : Type 0) : Type 0 where
  pub gvk : O → GroupVersionKind
  pub to_internal_crd : O → Result O
  pub to_crd : O → Result CustomResourceDefinition
  pub to_daemon_set : O → Result DaemonSet
  pub to_deployment : O → Result DeploymentStatus
  pub to_job : O → Result JobStatus
  pub to_pod : O → Result PodStatus
  pub to_replica_set : O → Result ReplicaStatus
  pub to_replication_controller : O → Result ReplicaStatus
  pub to_stateful_set : O → Result ReplicaStatus

-- if err := scheme.Convert(…); err != nil { return err }; return check(…)
abbrev pub checked {ℓ} : {A : Type ℓ} → Result A → (A → Check) → Check
checked (ok a) check = check a
checked (err e) check = some (not_converted e)

abbrev gk : String → String → GroupKind
gk group kind = record { group = group; kind = kind }

abbrev pub crd_kind : GroupKind
crd_kind = gk "apiextensions.k8s.io" "CustomResourceDefinition"

module _ {O : Type 0} (scheme : HealthScheme O) where
  abbrev kind_of : O → GroupKind
  kind_of obj = record { group = (scheme.gvk obj).group; kind = (scheme.gvk obj).kind }

  unfoldable pub check_health : O → Check
  check_health obj =
      let k = kind_of obj in
      if k == crd_kind
      then checked
          (if (scheme.gvk obj).version == "v1beta1"
            then scheme.to_internal_crd obj >>= scheme.to_crd
            else scheme.to_crd obj)
          check_custom_resource_definition
      else if k == gk "apps" "DaemonSet"
      then checked (scheme.to_daemon_set obj) check_daemon_set
      else if k == gk "apps" "Deployment"
      then checked (scheme.to_deployment obj) check_deployment
      else if k == gk "batch" "Job"
      then checked (scheme.to_job obj) check_job
      else if k == gk "" "Pod"
      then checked (scheme.to_pod obj) check_pod
      else if k == gk "apps" "ReplicaSet"
      then checked (scheme.to_replica_set obj) check_replica_set
      else if k == gk "" "ReplicationController"
      then checked (scheme.to_replication_controller obj) check_replication_controller
      else if k == gk "apps" "StatefulSet"
      then checked (scheme.to_stateful_set obj) check_stateful_set
      else none
