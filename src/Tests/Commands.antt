-- ===== src/Tests/Commands.antt =====
-- A set-up of the command, a cluster id that is read, and a change of the class.
use gardener_resource_manage.Prelude.{
  ℕ, String, true, false, none, some, [], ◌∷◌, ◌≡◌, Bool, refl, ◌⊎◌,
}
use gardener_resource_manage.Prelude.Lists.{any}
use gardener_resource_manage.Prelude.Tests.{◌==◌, string_eq}
use gardener_resource_manage.Prelude.Int.{pos}
use gardener_resource_manage.Prelude.Dict.{lookup}
use gardener_resource_manage.Errors.{ok}
use gardener_resource_manage.Api.Types.{ManagedResource}
use gardener_resource_manage.Filter.{new_class_filter}
use gardener_resource_manage.Predicates.{Funcs}
use gardener_resource_manage.Reconciler.Steps.{Reconciler}
use gardener_resource_manage.Reconciler.Run.{delete}
use gardener_resource_manage.Cmd.{FlagSet}
use gardener_resource_manage.Cmd.Source
use gardener_resource_manage.Cmd.Target
use gardener_resource_manage.Cmd.Manager
use gardener_resource_manage.Healthz
use gardener_resource_manage.Controllers.Resource
use gardener_resource_manage.Cmd.Platform.{Platform}
use gardener_resource_manage.Controllers.Resource.{
  ControllerConfig, apply_default_cluster_id, no_target,
}
use gardener_resource_manage.Controllers.Identity.{
  Stored, Missing, apply_default_cluster_id_lem, placeholder,
}
use gardener_resource_manage.Controllers.Watches.{Watching, every}
use gardener_resource_manage.Controllers.Adding.{Registrar}
use gardener_resource_manage.App.{App, command_flags, setup}
use gardener_resource_manage.Tests.Data.{resource_of}
use gardener_resource_manage.Tests.Reconciling.{reconciler}

-- All calls succeed; the world is a number.
abbrev platform : Platform
platform = record {
  World = ℕ;
  RestConfig = String;
  Client = String;
  RestMapper = String;
  Scheme = String;
  Cache = String;
  ClientSet = String;
  build_config = λ path w. (ok path, w);
  get_config = λ w. (ok "source", w);
  in_cluster_config = λ w. (ok "target", w);
  getenv = λ name w. "";
  home_dir = λ w. (ok "/root", w);
  join_path = λ home. home;
  source_scheme = "source";
  target_scheme = "target";
  new_clientset = λ c w. (ok c, w);
  new_rest_mapper = λ c w. (ok c, w);
  new_client = λ c m s w. (ok c, w);
  new_default_client = λ c w. (ok c, w);
  get_config_map = λ c namespace name w. (ok (("cluster-identity", "seed-1") ∷ []), w);
  new_cache = λ c m resync s w. (ok c, w);
  with_limits = λ qps burst c. c;
  build_cached_client = λ cache c m s w. (ok c, w);
  start_cache = λ c w. (ok tt, w);
  wait_for_cache_sync = λ c w. (true, w);
  Manager = ℕ;
  Controller = String;
}

abbrev config : ControllerConfig platform
config = record {
  max_concurrent_workers = 1;
  sync_period = 60;
  class_filter = new_class_filter "seed";
  always_update = false;
  cluster_id = "<cluster>";
  target_client_config = no_target platform;
}

abbrev determined : ControllerConfig platform
determined = record config { cluster_id = "seed-1" }

apply_default_cluster_id_lem_example :
    ((placeholder platform config.cluster_id ≡ false) × (determined ≡ config) × (◌≡◌ {A = ℕ} 0 0))
    ⊎ ((placeholder platform config.cluster_id ≡ true)
        × (Stored platform determined.cluster_id
            ⊎ ((config.cluster_id == "<cluster>" ≡ false)
                × (determined.cluster_id ≡ "")
                × Missing platform)))
unfolding apply_default_cluster_id lookup
apply_default_cluster_id_lem_example =
    apply_default_cluster_id_lem platform "source" config 0 determined 0 refl

-- The predicates by their meaning; nobody asks for an operation.
abbrev funcs_of :
    (ManagedResource → ManagedResource → Bool) → (ManagedResource → Bool) → Funcs ManagedResource
funcs_of update create = record {
  create = create;
  update = update;
  delete = λ o. true;
  generic = λ o. true;
}

abbrev watching : Watching
watching = record {
  all_of = λ fs.
      funcs_of (λ old new. every (λ f. f.update old new) fs) (λ o. every (λ f. f.create o) fs);
  any_of =
      λ fs. funcs_of (λ old new. any (λ f. f.update old new) fs) (λ o. any (λ f. f.create o) fs);
  generation_changed = funcs_of (λ old new. true) (λ o. true);
  has_operation_annotation = funcs_of (λ old new. false) (λ o. false);
}

abbrev seed_reconciler : Reconciler ManagedResource ℕ ℕ ℕ
seed_reconciler = record reconciler { class = new_class_filter "seed" }

-- The class changes from the default to "seed".
abbrev before : ManagedResource
before = record (resource_of none ("resources.gardener.cloud/gardener-resource-manager" ∷ []) []) {
  generation = pos 1;
}

abbrev moved : ManagedResource
moved = resource_of (some "seed") ("resources.gardener.cloud/gardener-resource-manager" ∷ []) []

-- No name of a flag is used twice.
flags_distinct : (flags : FlagSet) × (command_flags [] ≡ some flags)
unfolding command_flags lookup
flags_distinct = (_, refl)

abbrev registrar : Registrar platform
registrar = record {
  new_controller = λ mgr name workers settings w. (ok name, w);
  watch = λ controller handler events w. (ok tt, w);
  watch_secrets = λ controller handler events w. (ok tt, w);
  watch_all_secrets = λ controller handler w. (ok tt, w);
  add_healthz_check = λ mgr name check w. (ok tt, w);
  get_status = λ c path w. (ok 200, w);
}

abbrev app : App platform
app = record {
  manager_options = record {
    metrics_bind_address = ":8080";
    health_bind_address = ":8081";
    leader_election = true;
    leader_election_namespace = "";
    leader_election_lease_duration = 15;
    leader_election_renew_deadline = 10;
    leader_election_retry_period = 2;
    completed = none;
  };
  source_options = record {
    kubeconfig_path = "";
    cache_resync_period = 100;
    namespace = "";
    source_client = none;
  };
  target_options = record {
    kubeconfig_path = "";
    disable_cache = false;
    cache_resync_period = 100;
    target_client = none;
  };
  resource_options = record {
    max_concurrent_workers = 10;
    sync_period = 60;
    resource_class = "seed";
    always_update = false;
    cluster_id = "<cluster>";
  };
  secret_options = record { max_concurrent_workers = 5 };
  health_options = record { max_concurrent_workers = 10; sync_period = 60 };
  resource_config = config;
  secret_config = record { max_concurrent_workers = 0; class_filter = new_class_filter "" };
  health_config = record {
    max_concurrent_workers = 0;
    sync_period = 0;
    class_filter = new_class_filter "";
    target_client_config = no_target platform;
  };
  healthz = record { client_set = "" };
}

abbrev finished : App platform
finished = (setup platform (λ c opts w. (ok 1, w)) registrar watching (0, app)).1.1
