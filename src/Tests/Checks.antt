-- ===== src/Tests/Checks.antt =====
-- Health checks.
use gardener_resource_manage.Prelude.{ℕ, String, false, none, [], ◌∷◌}
use gardener_resource_manage.Prelude.Int.{pos}
use gardener_resource_manage.Errors.{Result, ok, err, errorf}
use gardener_resource_manage.Filter.{new_class_filter}
use gardener_resource_manage.Health.Types.{
  Condition, CustomResourceDefinition, DeploymentStatus, JobStatus,
}
use gardener_resource_manage.Health.Dispatch.{HealthScheme}
use gardener_resource_manage.Health.Reconciler.{HealthReconciler}
use gardener_resource_manage.Utils.CreateOrUpdate.{Registration}
use gardener_resource_manage.Tests.Data.{gvk, resource_of, status_client_of}

abbrev fails : {A : Type 0} → Result A
fails = err (errorf "not that type")

-- Objects of a kind that has no check.
abbrev scheme : HealthScheme ℕ
scheme = record {
  gvk = λ o. gvk "" "v1" "ConfigMap";
  to_internal_crd = λ o. fails;
  to_crd = λ o. fails;
  to_daemon_set = λ o. fails;
  to_deployment = λ o. fails;
  to_job = λ o. fails;
  to_pod = λ o. fails;
  to_replica_set = λ o. fails;
  to_replication_controller = λ o. fails;
  to_stateful_set = λ o. fails;
}

abbrev reconciler : HealthReconciler ℕ ℕ
reconciler = record {
  class_filter = new_class_filter "";
  sync_period = 60;
  get = λ namespace name w. (fails, w);
  status_client = λ namespace name. status_client_of (λ w. resource_of none [] []) (λ mr w. w);
  registration = λ k. Registration.registered;
  get_target = λ ref w. (ok w, w);
  scheme = scheme;
  health_text = λ e. "unhealthy";
  conditions_equal = λ c d. false;
}

abbrev condition : String → String → Condition
condition t status = record { type = t; status = status; reason = ""; message = "" }

-- A definition whose Terminating is not there, a Deployment that no longer progresses, and a Job
-- that has failed.
abbrev crd : CustomResourceDefinition
crd = record {
  conditions = condition "NamesAccepted" "True" ∷ (condition "Established" "True" ∷ []);
}

abbrev deployment : DeploymentStatus
deployment = record {
  generation = pos 2;
  observed_generation = pos 2;
  conditions = condition "Available" "True" ∷ (condition "Progressing" "False" ∷ []);
}

abbrev job : JobStatus
job = record { conditions = condition "Failed" "True" ∷ [] }
