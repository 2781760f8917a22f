-- ===== src/Controllers/Secret.antt =====
-- pkg/controller/secret/add.go: the options of the controller.
use gardener_resource_manage.Prelude.{ℕ, [], ◌∷◌}
use gardener_resource_manage.Filter.{ClassFilter}
use gardener_resource_manage.Cmd.{Flagger, FlagValue, add_vars}

pub record ControllerOptions : Type 0 where
  pub max_concurrent_workers : ℕ

pub record ControllerConfig : Type 0 where
  pub max_concurrent_workers : ℕ
  pub class_filter : ClassFilter

unfoldable pub add_flags : Flagger
unfolding add_vars
add_flags = add_vars (("secret-max-concurrent-workers", FlagValue.number 5) ∷ [])

-- The zero value of a filter, until another is set.
abbrev pub no_class : ClassFilter
no_class = record { resource_class = ""; finalizer = "" }

unfoldable pub complete : ControllerOptions → ControllerConfig
complete o = record { max_concurrent_workers = o.max_concurrent_workers; class_filter = no_class }
