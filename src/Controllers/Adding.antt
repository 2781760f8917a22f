-- ===== src/Controllers/Adding.antt =====
-- AddToManagerWithOptions of pkg/controller/managedresource/add.go, pkg/controller/secret/add.go
-- and pkg/controller/health/add.go: a new controller and its watches.
use gardener_resource_manage.Prelude.{ℕ, String, List}
use gardener_resource_manage.Errors.{Error, errorf, ◌+++◌}
use gardener_resource_manage.Exec.{Exec, wrap, ◌>>=◌, ◌>>◌}
use gardener_resource_manage.Api.Types.{ManagedResource}
use gardener_resource_manage.Filter.{ClassFilter}
use gardener_resource_manage.Predicates.{Funcs}
use gardener_resource_manage.Cmd.Platform.{Platform}
use gardener_resource_manage.Controllers.Resource
use gardener_resource_manage.Controllers.Secret
use gardener_resource_manage.Controllers.Health
use gardener_resource_manage.Controllers.Watches.{
  Watching, resource_events, health_events, secret_events, finalizer_events,
}

-- What an event is turned into.
pub data Handler : Type 0 where
  -- EnqueueRequestForObject
  the_object : Handler
  -- the health controller's functions: the object of a creation, the new object of an update
  created_or_updated : Handler
  -- the mappers of pkg/mapper, on the old and the new object of an update
  to_managed_resources : ClassFilter → Handler
  to_secrets : Handler

module _ (p : Platform) where
  open p use {World, Manager, Controller}

  -- The reconciler that a controller runs, with its settings.
  pub data Reconciles : Type 0 where
    managed_resources : Resource.ControllerConfig p → Reconciles
    secrets : ClassFilter → Reconciles
    health : Health.ControllerConfig p → Reconciles

  -- Of controller-runtime. A watch without predicates has `none` in the code; here the handler
  -- alone.
  pub record Registrar : Type 0 where
    pub new_controller : Manager → String → ℕ → Reconciles → Exec World Controller
    pub watch : Controller → Handler → Funcs ManagedResource → Exec World (Unit {0})
    pub watch_secrets : Controller → Handler → Funcs (List String) → Exec World (Unit {0})
    pub watch_all_secrets : Controller → Handler → Exec World (Unit {0})
    pub add_healthz_check : Manager → String → Exec World (Unit {0}) → Exec World (Unit {0})
    -- a GET of a path, with the status code
    pub get_status : p.ClientSet → String → Exec World ℕ

  abbrev pub unable : String → Error → Error
  unable what e = errorf ("unable to " +++ (what +++ (": " +++ e.message)))

  module _ (r : Registrar) (c : Watching) where
    unfoldable pub add_resource_controller :
        Manager → Resource.ControllerConfig p → Exec World (Unit {0})
    add_resource_controller mgr conf =
        wrap (unable "set up managedresource controller") (
          r.new_controller mgr "resource-controller" conf.max_concurrent_workers
            (Reconciles.managed_resources conf))
        >>= λ controller.
            wrap (unable "watch ManagedResources")
              (r.watch controller Handler.the_object (resource_events c conf.class_filter))
            >> wrap (unable "watch Secrets mapping to ManagedResources")
                (r.watch_all_secrets controller (Handler.to_managed_resources conf.class_filter))

    unfoldable pub add_secret_controller : Manager → Secret.ControllerConfig → Exec World (Unit {0})
    add_secret_controller mgr conf =
        wrap (unable "set up secret controller") (
          r.new_controller mgr "secret-controller" conf.max_concurrent_workers
            (Reconciles.secrets conf.class_filter))
        >>= λ controller.
            wrap (unable "watch ManagedResources")
              (r.watch controller Handler.to_secrets (secret_events c))
            >> wrap (unable "watch Secrets")
                (r.watch_secrets controller Handler.the_object (finalizer_events conf.class_filter))

    unfoldable pub add_health_controller :
        Manager → Health.ControllerConfig p → Exec World (Unit {0})
    add_health_controller mgr conf =
        wrap (unable "set up individual controller") (
          r.new_controller mgr "health-controller" conf.max_concurrent_workers
            (Reconciles.health conf))
        >>= λ controller.
            wrap (unable "watch ManagedResources")
              (r.watch controller Handler.created_or_updated (health_events c conf.class_filter))
