-- ===== src/Healthz.antt =====
-- pkg/healthz: the check of the manager's health endpoint, which asks the source cluster for its
-- own.
use gardener_resource_manage.Prelude.{ℕ, String, not}
use gardener_resource_manage.Prelude.Tests.{◌==◌, nat_eq, if◌then◌else◌}
use gardener_resource_manage.Prelude.Decimals.{decimal}
use gardener_resource_manage.Errors.{errorf, ◌+++◌}
use gardener_resource_manage.Exec.{Exec, pure, raise, ◌>>=◌}
use gardener_resource_manage.Cmd.Platform.{Platform}

module _ (p : Platform) where
  open p use {World, ClientSet, Manager}

  pub record AddOptions : Type 0 where
    pub client_set : ClientSet

  -- checker.Check; `get_status` is the request with its error, and otherwise the status code.
  unfoldable pub check : (ClientSet → String → Exec World ℕ) → ClientSet → Exec World (Unit {0})
  check get_status client_set = get_status client_set "/healthz" >>= λ status_code.
      if not (status_code == 200)
      then raise (
          errorf (
            "failed talking to the source cluster's kube-apiserver (status code: "
            +++ (decimal status_code +++ ")")))
      else pure tt

  -- The manager is given the name and the check.
  unfoldable pub add_to_manager :
      (Manager → String → Exec World (Unit {0}) → Exec World (Unit {0}))
      → (ClientSet → String → Exec World ℕ)
      → Manager
      → AddOptions
      → Exec World (Unit {0})
  unfolding check
  add_to_manager add_healthz_check get_status mgr opts =
      add_healthz_check mgr "healthz" (check get_status opts.client_set)
