-- ===== src/Cmd/Source.antt =====
-- pkg/cmd/source.go: the configuration of the source cluster.
use gardener_resource_manage.Prelude.{ℕ, ◌*◌, String, not, Option, some, [], ◌∷◌}
use gardener_resource_manage.Prelude.Tests.{◌==◌, string_eq, if◌then◌else◌}
use gardener_resource_manage.Errors.{Error, errorf, ◌+++◌}
use gardener_resource_manage.Exec.{Exec, pure, wrap, ◌>>=◌}
use gardener_resource_manage.Cmd.{Flagger, FlagValue, add_vars}
use gardener_resource_manage.Cmd.Platform.{Platform}
use gardener_resource_manage.Cmd.Manager.{Options}

unfoldable pub add_flags : Flagger
unfolding add_vars
add_flags = add_vars (
    ("kubeconfig", FlagValue.text "")
    ∷ ("namespace", FlagValue.text "")
    ∷ ("cache-resync-period", FlagValue.duration (24 * 3600))
    ∷ [])

abbrev pub prefixed : String → Error → Error
prefixed text e = errorf (text +++ (": " +++ e.message))

module _ (p : Platform) where
  open p use {World, RestConfig, Scheme, ClientSet}

  pub record SourceClientConfig : Type 0 where
    pub rest_config : RestConfig
    pub cache_resync_period : ℕ
    pub client_set : ClientSet
    pub scheme : Scheme
    pub namespace : String

  pub record SourceClientOptions : Type 0 where
    pub kubeconfig_path : String
    pub cache_resync_period : ℕ
    pub namespace : String
    pub source_client : Option SourceClientConfig

  unfoldable pub get_source_rest_config : String → Exec World RestConfig
  get_source_rest_config path =
      if not (path == "")
      then wrap (prefixed "could not instantiate rest config") (p.build_config path)
      else p.get_config

  unfoldable pub complete : SourceClientOptions → Exec World SourceClientOptions
  unfolding get_source_rest_config
  complete o =
      wrap (prefixed "unable to create REST config for source cluster")
        (get_source_rest_config o.kubeconfig_path)
      >>= λ config.
          wrap (prefixed "could not create discovery client") (p.new_clientset config)
          >>= λ client_set. pure (record o {
            source_client = some (record {
              rest_config = config;
              cache_resync_period = o.cache_resync_period;
              client_set = client_set;
              scheme = p.source_scheme;
              namespace = o.namespace;
            });
          })

  unfoldable pub apply_manager_options : SourceClientConfig → Options Scheme → Options Scheme
  apply_manager_options c opts = record opts {
    scheme = some c.scheme;
    sync_period = some c.cache_resync_period;
    namespace = c.namespace;
  }

  -- `*clientSet = *c.ClientSet`
  unfoldable pub apply_client_set : SourceClientConfig → ClientSet → ClientSet
  apply_client_set c client_set = c.client_set
