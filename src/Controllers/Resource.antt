-- ===== src/Controllers/Resource.antt =====
-- pkg/controller/managedresource/add.go: the options of the controller and the cluster id.
use gardener_resource_manage.Prelude.{ℕ, String, Bool, false, not, ◌||◌, none, some, [], ◌∷◌}
use gardener_resource_manage.Prelude.Tests.{◌==◌, string_eq, if◌then◌else◌}
use gardener_resource_manage.Prelude.Dict.{Dict, lookup}
use gardener_resource_manage.Errors.{Error, Result, ok, err, errorf, is_not_found, ◌+++◌}
use gardener_resource_manage.Exec.{Exec, pure, raise, wrap, catch, ◌>>=◌}
use gardener_resource_manage.Filter.{ClassFilter, new_class_filter, default_class}
use gardener_resource_manage.Cmd.{Flagger, FlagValue, add_vars}
use gardener_resource_manage.Cmd.Platform.{Platform}
use gardener_resource_manage.Cmd.Target.{TargetClientConfig}

pub record ControllerOptions : Type 0 where
  pub max_concurrent_workers : ℕ
  pub sync_period : ℕ
  pub resource_class : String
  pub always_update : Bool
  pub cluster_id : String

unfoldable pub add_flags : Flagger
unfolding add_vars
add_flags = add_vars (
    ("max-concurrent-workers", FlagValue.number 10)
    ∷ ("sync-period", FlagValue.duration 60)
    ∷ ("resource-class", FlagValue.text default_class)
    ∷ ("cluster-id", FlagValue.text "")
    ∷ ("always-update", FlagValue.bool false)
    ∷ [])

-- The name of the ConfigMap and of its entry, and metav1.NamespaceSystem.
abbrev pub cluster_identity : String
cluster_identity = "cluster-identity"

abbrev pub namespace_system : String
namespace_system = "kube-system"

module _ (p : Platform) where
  open p use {World, RestConfig, Client}

  pub record ControllerConfig : Type 0 where
    pub max_concurrent_workers : ℕ
    pub sync_period : ℕ
    pub class_filter : ClassFilter
    pub always_update : Bool
    pub cluster_id : String
    pub target_client_config : TargetClientConfig p

  abbrev pub no_target : TargetClientConfig p
  no_target = record { client = none; rest_mapper = none; scheme = none; cache = none }

  -- Complete gives the options and the package's default configuration.
  unfoldable pub complete : ControllerOptions → ControllerOptions × ControllerConfig
  complete o =
      let class = if o.resource_class == "" then default_class else o.resource_class in
      (
        record o { resource_class = class },
        record {
          max_concurrent_workers = o.max_concurrent_workers;
          sync_period = o.sync_period;
          class_filter = new_class_filter class;
          always_update = o.always_update;
          cluster_id = o.cluster_id;
          target_client_config = no_target;
        },
      )

  -- `*filter = *c.ClassFilter`
  unfoldable pub apply_class_filter : ControllerConfig → ClassFilter → ClassFilter
  apply_class_filter c filter = c.class_filter

  abbrev pub undetermined : String → Error
  undetermined text = errorf ("cannot determine cluster identity from configmap: " +++ text)

  abbrev pub identity_in : Bool → Result (Dict String String) → Exec World String
  identity_in force (ok content) = elim (lookup cluster_identity content) [
    | some id ↦ pure id
    | none ↦
        if force
        then raise
            (errorf "cannot determine cluster identity from configmap: no cluster-identity entry ")
        else pure ""
  ]
  identity_in force (err e) =
      if force || not (is_not_found e) then raise (undetermined e.message) else pure ""

  unfoldable pub determine_cluster_identity : Client → Bool → Exec World String
  determine_cluster_identity client force =
      catch (p.get_config_map client namespace_system cluster_identity) >>= identity_in force

  abbrev pub no_cluster_id : Error → Error
  no_cluster_id e = errorf ("unable to determine cluster id: " +++ e.message)

  -- The configuration is changed in place; on an error the command ends.
  unfoldable pub apply_default_cluster_id :
      RestConfig → ControllerConfig → Exec World ControllerConfig
  unfolding determine_cluster_identity
  apply_default_cluster_id config c =
      if c.cluster_id == "<cluster>" || c.cluster_id == "<default>"
      then (wrap no_cluster_id (
            p.new_default_client config >>= λ client.
            determine_cluster_identity client (c.cluster_id == "<cluster>"))
          >>= λ id. pure (record c { cluster_id = id }))
      else pure c
