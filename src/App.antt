-- ===== src/App.antt =====
-- cmd/gardener-resource-manager/app/app.go: RunE up to the start of the manager.
use gardener_resource_manage.Prelude.{ℕ, String, Bool, false, Option, none, some, List, [], ◌∷◌}
use gardener_resource_manage.Errors.{Error, Result, ok, err, errorf, ◌+++◌}
use gardener_resource_manage.Exec.{Exec, pure, raise, wrap, ◌>>=◌, ◌>>◌}
use gardener_resource_manage.Cmd.{Flagger, complete_all, add_all_to_manager, add_all_flags}
use gardener_resource_manage.Cmd.Platform.{Platform}
use gardener_resource_manage.Cmd.Manager
use gardener_resource_manage.Cmd.Source
use gardener_resource_manage.Cmd.Target
use gardener_resource_manage.Healthz
use gardener_resource_manage.Controllers.Resource
use gardener_resource_manage.Controllers.Secret
use gardener_resource_manage.Controllers.Health
use gardener_resource_manage.Controllers.Watches.{Watching}
use gardener_resource_manage.Controllers.Adding.{
  Registrar, add_resource_controller, add_secret_controller, add_health_controller,
}
pub mod Running
pub mod Completing
pub mod Configuring
pub mod Setup

-- AddAllFlags with the options of the command.
unfoldable pub command_flags : Flagger
unfolding add_all_flags Manager.add_flags Target.add_flags Source.add_flags Resource.add_flags
    Secret.add_flags Health.add_flags
command_flags = add_all_flags (
    Manager.add_flags ∷ Target.add_flags ∷ Source.add_flags ∷ Resource.add_flags ∷ Secret.add_flags
    ∷ Health.add_flags ∷ [])

module _ (p : Platform) where
  open p use {World, RestConfig, Scheme}

  -- The options, and the default configurations of the packages of the controllers.
  pub record App : Type 0 where
    pub manager_options : Manager.ManagerOptions
    pub source_options : Source.SourceClientOptions p
    pub target_options : Target.TargetClientOptions p
    pub resource_options : Resource.ControllerOptions
    pub secret_options : Secret.ControllerOptions
    pub health_options : Health.ControllerOptions
    pub resource_config : Resource.ControllerConfig p
    pub secret_config : Secret.ControllerConfig
    pub health_config : Health.ControllerConfig p
    pub healthz : Healthz.AddOptions p

  abbrev pub Command : Type 0 → Type 0
  Command A = Exec (World × App) A

  abbrev pub beside_app : {A : Type 0} → App → Result A × World → Result A × (World × App)
  beside_app a (r, w) = (r, (w, a))

  abbrev pub on_app : {A : Type 0} → (App → Exec World A) → Command A
  on_app f (w, a) = beside_app a (f a w)

  abbrev pub change : (App → App) → Command (Unit {0})
  change f (w, a) = (ok tt, (w, f a))

  abbrev pub complete_manager : Command (Unit {0})
  complete_manager = change (λ a. record a { manager_options = Manager.complete a.manager_options })

  abbrev pub complete_source : Command (Unit {0})
  complete_source = on_app (λ a. Source.complete p a.source_options) >>= λ o.
      change (λ a. record a { source_options = o })

  abbrev pub complete_target : Command (Unit {0})
  complete_target = on_app (λ a. Target.complete p a.target_options) >>= λ o.
      change (λ a. record a { target_options = o })

  abbrev pub complete_resource : Command (Unit {0})
  complete_resource = change (λ a. record a {
    resource_options = (Resource.complete p a.resource_options).0;
    resource_config = (Resource.complete p a.resource_options).1;
  })

  abbrev pub complete_secret : Command (Unit {0})
  complete_secret = change (λ a. record a { secret_config = Secret.complete a.secret_options })

  abbrev pub complete_health : Command (Unit {0})
  complete_health = change (λ a. record a { health_config = Health.complete p a.health_options })

  -- In the order of the call of CompleteAll.
  abbrev pub completers : List (Command (Unit {0}))
  completers =
      complete_manager ∷ complete_source ∷ complete_target ∷ complete_resource ∷ complete_secret
      ∷ complete_health ∷ []

  -- A pointer that is followed.
  abbrev pub deref : {A B : Type 0} → Option A → (A → Command B) → Command B
  deref none use_it = raise (errorf "nil pointer dereference")
  deref (some a) use_it = use_it a

  abbrev pub zero_options : Manager.Options Scheme
  zero_options = record {
    scheme = none;
    sync_period = none;
    namespace = "";
    leader_election = false;
    leader_election_id = "";
    leader_election_namespace = "";
    lease_duration = none;
    renew_deadline = none;
    retry_period = none;
    metrics_bind_address = "";
    health_probe_bind_address = "";
    liveness_endpoint_name = "";
  }

  -- The calls of Apply and ApplyClassFilter on the configurations.
  unfoldable pub applied : Source.SourceClientConfig p → Target.TargetClientConfig p → App → App
  applied s t a = record a {
    healthz = record { client_set = Source.apply_client_set p s a.healthz.client_set };
    resource_config = record a.resource_config {
      target_client_config = Target.apply p t a.resource_config.target_client_config;
    };
    health_config = record a.health_config {
      target_client_config = Target.apply p t a.health_config.target_client_config;
      class_filter = Resource.apply_class_filter p a.resource_config a.health_config.class_filter;
    };
    secret_config = record a.secret_config {
      class_filter = Resource.apply_class_filter p a.resource_config a.secret_config.class_filter;
    };
  }

  module _ (new_manager : RestConfig → Manager.Options Scheme → Exec World p.Manager)
      (r : Registrar p) (c : Watching) where
    abbrev pub no_manager : Error → Error
    no_manager e = errorf ("could not instantiate manager: " +++ e.message)

    abbrev pub adders : List (p.Manager → Command (Unit {0}))
    adders =
        (λ mgr. on_app (λ a. add_resource_controller p r c mgr a.resource_config))
        ∷ (λ mgr. on_app (λ a. add_secret_controller p r c mgr a.secret_config))
        ∷ (λ mgr. on_app (λ a. add_health_controller p r c mgr a.health_config))
        ∷ (λ mgr.
            on_app (λ a. Healthz.add_to_manager p r.add_healthz_check r.get_status mgr a.healthz))
        ∷ []

    abbrev pub identified : RestConfig → Command (Unit {0})
    identified config =
        on_app (λ a. Resource.apply_default_cluster_id p config a.resource_config) >>= λ conf.
        change (λ a. record a { resource_config = conf })

    abbrev pub managed : Manager.ManagerConfig → Source.SourceClientConfig p → Command p.Manager
    managed m s = on_app (λ a. wrap no_manager (
        new_manager s.rest_config
          (Source.apply_manager_options p s (Manager.apply m zero_options))))

    unfoldable pub configured :
        Manager.ManagerConfig
        → Source.SourceClientConfig p
        → Target.TargetClientConfig p
        → Command p.Manager
    configured m s t =
        change (applied s t)
        >> (identified s.rest_config
            >> (managed m s >>= λ mgr. add_all_to_manager mgr adders >> pure mgr))

    unfoldable pub setup : Command p.Manager
    unfolding configured complete_all
    setup = complete_all completers >> (λ s.
        deref s.1.manager_options.completed
          (λ m. deref s.1.source_options.source_client (λ source.
            deref s.1.target_options.target_client (λ target. configured m source target)))
          s)
