-- ===== src/Cmd/Target.antt =====
-- pkg/cmd/target.go: the client of the target cluster.
use gardener_resource_manage.Prelude.{
  ℕ, ◌*◌, String, Bool, true, false, not, Option, none, some, [], ◌∷◌,
}
use gardener_resource_manage.Prelude.Tests.{◌==◌, string_eq, if◌then◌else◌}
use gardener_resource_manage.Errors.{ok, err, errorf}
use gardener_resource_manage.Exec.{Exec, pure, raise, wrap, catch, ◌>>=◌}
use gardener_resource_manage.Cmd.{Flagger, FlagValue, add_vars}
use gardener_resource_manage.Cmd.Platform.{Platform}
use gardener_resource_manage.Cmd.Source.{prefixed}

unfoldable pub add_flags : Flagger
unfolding add_vars
add_flags = add_vars (
    ("target-kubeconfig", FlagValue.text "")
    ∷ ("target-disable-cache", FlagValue.bool false)
    ∷ ("target-cache-resync-period", FlagValue.duration (24 * 3600))
    ∷ [])

module _ (p : Platform) where
  open p use {World, RestConfig, Client, RestMapper, Scheme, Cache}

  -- A nil cache is `none`.
  pub record TargetClientConfig : Type 0 where
    pub client : Option Client
    pub rest_mapper : Option RestMapper
    pub scheme : Option Scheme
    pub cache : Option Cache

  pub record TargetClientOptions : Type 0 where
    pub kubeconfig_path : String
    pub disable_cache : Bool
    pub cache_resync_period : ℕ
    pub target_client : Option TargetClientConfig

  abbrev pub no_config : Exec World RestConfig
  no_config = raise (errorf "could not create config for cluster")

  -- An error leads on to the next way.
  abbrev pub or_next : Exec World RestConfig → Exec World RestConfig → Exec World RestConfig
  or_next first second = catch first >>= λ r. elim r [ ok c ↦ pure c | err e ↦ second ]

  unfoldable pub get_target_rest_config : String → Exec World RestConfig
  get_target_rest_config path w =
      if not (path == "")
      then p.build_config path w
      else if not (p.getenv "KUBECONFIG" w == "")
      then p.build_config (p.getenv "KUBECONFIG" w) w
      else or_next p.in_cluster_config
          (or_next (p.home_dir >>= λ home. p.build_config (p.join_path home)) no_config) w

  -- The limits are those for a cached client.
  unfoldable pub new_cached_client : Cache → RestConfig → RestMapper → Exec World Client
  new_cached_client cache config mapper =
      p.build_cached_client cache (p.with_limits 100 130 config) mapper p.target_scheme

  abbrev pub direct : RestConfig → RestMapper → Exec World (Option Cache × Client)
  direct config mapper =
      wrap (prefixed "unable to create client for target cluster")
        (p.new_client config mapper p.target_scheme)
      >>= λ client. pure (none, client)

  abbrev pub cached : ℕ → RestConfig → RestMapper → Exec World (Option Cache × Client)
  cached resync config mapper =
      wrap (prefixed "unable to create client cache for target cluster")
        (p.new_cache config mapper resync p.target_scheme)
      >>= λ cache.
          wrap (prefixed "unable to create client for target cluster")
            (new_cached_client cache config mapper)
          >>= λ client. pure (some cache, client)

  unfoldable pub complete : TargetClientOptions → Exec World TargetClientOptions
  unfolding get_target_rest_config new_cached_client
  complete o =
      wrap (prefixed "unable to create REST config for target cluster")
        (get_target_rest_config o.kubeconfig_path)
      >>= λ config.
          wrap (prefixed "unable to create REST mapper for target cluster")
            (p.new_rest_mapper config)
          >>= λ mapper.
              (if o.disable_cache
                then direct config mapper
                else cached o.cache_resync_period config mapper)
              >>= λ made. pure (record o {
                target_client = some (record {
                  client = some made.1;
                  rest_mapper = some mapper;
                  scheme = some p.target_scheme;
                  cache = made.0;
                });
              })

  -- Start, with no effect where there is no cache.
  unfoldable pub start : TargetClientConfig → Exec World (Unit {0})
  start c = elim c.cache [ none ↦ pure tt | some cache ↦ p.start_cache cache ]

  unfoldable pub wait_for_cache_sync : TargetClientConfig → World → Bool × World
  wait_for_cache_sync c w = elim c.cache [
    | none ↦ (true, w)
    | some cache ↦ p.wait_for_cache_sync cache w
  ]

  -- The cache is not handed on.
  unfoldable pub apply : TargetClientConfig → TargetClientConfig → TargetClientConfig
  apply c conf = record conf { client = c.client; rest_mapper = c.rest_mapper; scheme = c.scheme }
