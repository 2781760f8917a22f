-- ===== src/Cmd/Manager.antt =====
-- pkg/cmd/manager.go: the options of the manager. Durations are in seconds.
use gardener_resource_manage.Prelude.{ℕ, String, Bool, true, Option, some, [], ◌∷◌}
use gardener_resource_manage.Cmd.{Flagger, FlagValue, add_vars}

pub record ManagerConfig : Type 0 where
  pub metrics_bind_address : String
  pub health_bind_address : String
  pub liveness_endpoint_name : String
  pub leader_election : Bool
  pub leader_election_id : String
  pub leader_election_namespace : String
  pub leader_election_lease_duration : ℕ
  pub leader_election_renew_deadline : ℕ
  pub leader_election_retry_period : ℕ

pub record ManagerOptions : Type 0 where
  pub metrics_bind_address : String
  pub health_bind_address : String
  pub leader_election : Bool
  pub leader_election_namespace : String
  pub leader_election_lease_duration : ℕ
  pub leader_election_renew_deadline : ℕ
  pub leader_election_retry_period : ℕ
  pub completed : Option ManagerConfig

-- manager.Options, the fields that are set; nil is `none`.
pub record Options (Scheme : Type 0) : Type 0 where
  pub scheme : Option Scheme
  pub sync_period : Option ℕ
  pub namespace : String
  pub leader_election : Bool
  pub leader_election_id : String
  pub leader_election_namespace : String
  pub lease_duration : Option ℕ
  pub renew_deadline : Option ℕ
  pub retry_period : Option ℕ
  pub metrics_bind_address : String
  pub health_probe_bind_address : String
  pub liveness_endpoint_name : String

unfoldable pub add_flags : Flagger
unfolding add_vars
add_flags = add_vars (
    ("leader-election", FlagValue.bool true)
    ∷ ("leader-election-namespace", FlagValue.text "")
    ∷ ("leader-election-lease-duration", FlagValue.duration 15)
    ∷ ("leader-election-renew-deadline", FlagValue.duration 10)
    ∷ ("leader-election-retry-period", FlagValue.duration 2)
    ∷ ("metrics-bind-address", FlagValue.text ":8080")
    ∷ ("health-bind-address", FlagValue.text ":8081")
    ∷ [])

unfoldable pub complete : ManagerOptions → ManagerOptions
complete o = record o {
  completed = some (record {
    metrics_bind_address = o.metrics_bind_address;
    health_bind_address = o.health_bind_address;
    liveness_endpoint_name = "/healthz";
    leader_election = o.leader_election;
    leader_election_id = "gardener-resource-manager";
    leader_election_namespace = o.leader_election_namespace;
    leader_election_lease_duration = o.leader_election_lease_duration;
    leader_election_renew_deadline = o.leader_election_renew_deadline;
    leader_election_retry_period = o.leader_election_retry_period;
  });
}

unfoldable pub apply : {S : Type 0} → ManagerConfig → Options S → Options S
apply c opts = record opts {
  leader_election = c.leader_election;
  leader_election_id = c.leader_election_id;
  leader_election_namespace = c.leader_election_namespace;
  lease_duration = some c.leader_election_lease_duration;
  renew_deadline = some c.leader_election_renew_deadline;
  retry_period = some c.leader_election_retry_period;
  metrics_bind_address = c.metrics_bind_address;
  health_probe_bind_address = c.health_bind_address;
  liveness_endpoint_name = c.liveness_endpoint_name;
}
