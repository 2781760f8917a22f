-- ===== src/Builders/Storage.antt =====
-- The client of the builders: Delete, and CreateOrUpdate of controller-runtime, which reads the
-- object, calls the given function on it, and creates or updates it.
use gardener_resource_manage.Prelude.{String, Option, some, ◌≡◌, ◌≢◌, not}
use gardener_resource_manage.Prelude.Tests.{if◌then◌else◌}
use gardener_resource_manage.Errors.{Result, ok, err, is_not_found}
use gardener_resource_manage.Exec.{Exec}

abbrev pub Key : Type 0
Key = String × String

-- For objects of one type: the namespace and the name of an object, and the calls.
pub record Storage (W O : Type 0) : Type 0 where
  pub key : O → Key
  pub create_or_update : Exec O (Unit {0}) → O → Exec W (Unit {0})
  pub delete : O → Exec W (Unit {0})

-- What CreateOrUpdate promises where no other client writes: when it succeeds, the server holds
-- what the function made of the object that was given or of the one that was read for its key; and
-- objects under other keys are as they were. `stored` is what the server holds.
pub record IsStorage {W O : Type 0} (s : Storage W O) (stored : W → Key → Option O) : Type 0 where
  pub written :
      (mutate : Exec O (Unit {0})) (o : O) (w w' : W)
      → s.create_or_update mutate o w ≡ (ok tt, w')
      → (before : O) × (after : O) × (s.key before ≡ s.key o)
        × (mutate before ≡ (ok tt, after))
        × (stored w' (s.key o) ≡ some after)
  pub others_kept :
      (mutate : Exec O (Unit {0})) (o : O) (w : W) (k : Key)
      → k ≢ s.key o
      → stored (s.create_or_update mutate o w).1 k ≡ stored w k

-- `if err := client.Delete(…); err != nil && !apierrors.IsNotFound(err) { return err }`
abbrev pub unless_gone : {W : Type 0} → Result (Unit {0}) × W → Result (Unit {0}) × W
unless_gone (ok _, w) = (ok tt, w)
unless_gone (err e, w) = if not (is_not_found e) then (err e, w) else (ok tt, w)
