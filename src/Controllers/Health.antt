-- ===== src/Controllers/Health.antt =====
-- pkg/controller/health/add.go: the options of the controller.
use gardener_resource_manage.Prelude.{ℕ, [], ◌∷◌}
use gardener_resource_manage.Filter.{ClassFilter}
use gardener_resource_manage.Cmd.{Flagger, FlagValue, add_vars}
use gardener_resource_manage.Cmd.Platform.{Platform}
use gardener_resource_manage.Cmd.Target.{TargetClientConfig}
use gardener_resource_manage.Controllers.Resource.{no_target}
use gardener_resource_manage.Controllers.Secret.{no_class}

pub record ControllerOptions : Type 0 where
  pub max_concurrent_workers : ℕ
  pub sync_period : ℕ

unfoldable pub add_flags : Flagger
unfolding add_vars
add_flags = add_vars (
    ("health-sync-period", FlagValue.duration 60)
    ∷ ("health-max-concurrent-workers", FlagValue.number 10)
    ∷ [])

module _ (p : Platform) where
  pub record ControllerConfig : Type 0 where
    pub max_concurrent_workers : ℕ
    pub sync_period : ℕ
    pub class_filter : ClassFilter
    pub target_client_config : TargetClientConfig p

  unfoldable pub complete : ControllerOptions → ControllerConfig
  complete o = record {
    max_concurrent_workers = o.max_concurrent_workers;
    sync_period = o.sync_period;
    class_filter = no_class;
    target_client_config = no_target p;
  }
