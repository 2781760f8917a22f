-- ===== src/Cmd/Platform.antt =====
-- The libraries that the command calls to make configurations, clients and caches: client-go,
-- controller-runtime, and the operating system.
use gardener_resource_manage.Prelude.{ℕ, String, Bool}
use gardener_resource_manage.Prelude.Dict.{Dict}
use gardener_resource_manage.Exec.{Exec}

pub record Platform : Type 1 where
  pub World : Type 0
  pub RestConfig : Type 0
  pub Client : Type 0
  pub RestMapper : Type 0
  pub Scheme : Type 0
  pub Cache : Type 0
  pub ClientSet : Type 0
  -- clientcmd.BuildConfigFromFlags with no master, config.GetConfig and rest.InClusterConfig
  pub build_config : String → Exec World RestConfig
  pub get_config : Exec World RestConfig
  pub in_cluster_config : Exec World RestConfig
  -- os.Getenv, and the home directory of user.Current
  pub getenv : String → World → String
  pub home_dir : Exec World String
  pub join_path : String → String
  pub source_scheme : Scheme
  pub target_scheme : Scheme
  pub new_clientset : RestConfig → Exec World ClientSet
  pub new_rest_mapper : RestConfig → Exec World RestMapper
  pub new_client : RestConfig → RestMapper → Scheme → Exec World Client
  -- client.New with no options, and a read of the data of a ConfigMap by namespace and name
  pub new_default_client : RestConfig → Exec World Client
  pub get_config_map : Client → String → String → Exec World (Dict String String)
  pub new_cache : RestConfig → RestMapper → ℕ → Scheme → Exec World Cache
  -- a configuration with other rate limits (QPS and Burst)
  pub with_limits : ℕ → ℕ → RestConfig → RestConfig
  pub build_cached_client : Cache → RestConfig → RestMapper → Scheme → Exec World Client
  pub start_cache : Cache → Exec World (Unit {0})
  pub wait_for_cache_sync : Cache → World → Bool × World
  -- manager.Manager and controller.Controller
  pub Manager : Type 0
  pub Controller : Type 0
