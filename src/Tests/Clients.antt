-- ===== src/Tests/Clients.antt =====
-- Clients of a server that holds one object, which is the world.
use gardener_resource_manage.Prelude.{
  ℕ, zero, suc, ◌+◌, ◌<◌, ◌*◌, String, Bool, false, none, List, [], ◌∷◌, ◌≡◌, refl, arith,
}
use gardener_resource_manage.Prelude.Lists.{contains}
use gardener_resource_manage.Prelude.Tests.{Same, string_eq, nat_eq, nat_beq_iff, ◌==◌}
use gardener_resource_manage.Errors.{ok, err}
use gardener_resource_manage.Exec.{Exec}
use gardener_resource_manage.Objects.{Unstructured}
use gardener_resource_manage.Utils.Backoff.{
  Backoff, Waiting, exponential_backoff, timed_out, waiting_counted, counted,
}
use gardener_resource_manage.Utils.Backoff.Rounds.{
  before_attempt, exponential_backoff_reaches, exponential_backoff_exhausted,
}
use gardener_resource_manage.Utils.Update.{
  Access, IsServer, attempt, try_update, try_update_settles,
}
use gardener_resource_manage.Utils.Finalizers.{
  Finalizing, IsFinalizing, delete_finalizer, delete_finalizer_lem,
}
use gardener_resource_manage.Utils.CreateOrUpdate.{
  ObjectClient, Registration, read_current, typed_create_or_update,
}
use gardener_resource_manage.Utils.CreateOrUpdate.Writes.{
  Allowed, logged, typed_create_or_update_writes,
}
use gardener_resource_manage.Utils.Backoff.{backoff_loop}
use gardener_resource_manage.Tests.Data.{gvk}

abbrev pub default_backoff : Backoff
default_backoff = record { steps = 4; duration = 10; next = λ d. d * 5; jittered = λ d. d }

abbrev pub never_done : {W : Type 0} → Waiting W
never_done = record { done = λ w. none; sleep = λ d w. w }

-- The four steps allow two attempts.
exponential_backoff_exhausted_example :
    ((exponential_backoff
        (waiting_counted (never_done {W = ℕ}))
        default_backoff
        (counted (λ w. (ok false, w)))
        (0, 0)).0
      ≡ err timed_out)
    × ((exponential_backoff
          (waiting_counted (never_done {W = ℕ}))
          default_backoff
          (counted (λ w. (ok false, w)))
          (0, 0)).1.1
        ≡ 2)
exponential_backoff_exhausted_example =
    exponential_backoff_exhausted never_done default_backoff (λ w. (ok false, w)) (λ w. refl)
      (λ w. refl) 0

-- A condition that is satisfied by the number 1 and counts.
abbrev counting : Exec ℕ Bool
counting w = (ok (w == 1), w + 1)

exponential_backoff_reaches_example :
    exponential_backoff never_done default_backoff counting 0 ≡ (ok tt, 2)
exponential_backoff_reaches_example =
    exponential_backoff_reaches never_done default_backoff counting (λ w. refl) 1 0 (omega arith)
      first_fails refl
  where
    first_fails :
        (j : ℕ)
        → j < 1
        → (counting (before_attempt never_done default_backoff counting j 10 0)).0 ≡ ok false
    first_fails zero h = refl
    first_fails (suc j) h = absurd (omega arith)

-- A number in a store, read and written without a failure.
abbrev number : Access ℕ ℕ
number = record { get = λ w. (ok w, w); update = λ o w. (ok o, o) }

instance abbrev same_number : Same ℕ
same_number = record { same = λ a b. a == b; same_sound = λ a b e. (nat_beq_iff a b).0 e }

number-IsServer : IsServer number (λ w. w) (λ o. o ≡ 7)
number-IsServer = record {
  get_held = λ w obj e. ground arith;
  update_held = λ w obj answer e. (ground arith, λ h. ground arith);
}

try_update_settles_example : ◌≡◌ {A = ℕ} 7 7 × ◌≡◌ {A = ℕ} 7 7
unfolding try_update attempt exponential_backoff backoff_loop
try_update_settles_example =
    try_update_settles ⦃e = same_number⦄ number (λ o. (ok tt, 7)) (λ w. w) (λ o. o ≡ 7)
      number-IsServer (λ o e. refl) never_done default_backoff (3, 0) (7, 7) refl

-- A list of finalizers is the object.
abbrev finalizing : Finalizing (List String) (List String)
finalizing = record {
  finalizers = λ o. o;
  set_finalizers = λ fs o. fs;
  get = λ o w. (ok w, w);
  patch = λ before o w. (ok o, o);
  retry_on_conflict = λ fn. fn;
}

finalizing-IsFinalizing : IsFinalizing finalizing
finalizing-IsFinalizing = record {
  finalizers-set_finalizers = λ fs o. refl;
  patched = λ before o answer w e. ground arith;
  retried = λ fn s. (s, refl);
}

delete_finalizer_lem_example :
    contains "f" (delete_finalizer finalizing "f" ("f" ∷ "g" ∷ [], [])).1.1 ≡ false
unfolding delete_finalizer contains
delete_finalizer_lem_example =
    delete_finalizer_lem finalizing finalizing-IsFinalizing "f" ("f" ∷ "g" ∷ [], []) refl

abbrev object_with : ℕ → Unstructured ℕ
object_with content = record {
  gvk = gvk "" "v1" "ConfigMap";
  metadata = none;
  status = none;
  content = content;
}

-- The object in the cluster has the content 1.
abbrev client : ObjectClient ℕ ℕ ℕ
client = record {
  registration = λ k. Registration.unregistered;
  get_typed = λ o w. (ok w, w);
  get = λ o w. (ok (object_with w), w);
  convert = λ t. ok (object_with t);
  create = λ o w. (ok o, o.content);
  update = λ o w. (ok o, o.content);
  delete = λ o w. (ok tt, w);
  deep_equal = λ o o'. o.content == o'.content;
}

abbrev overwrite : Exec (ℕ × Unstructured ℕ) (Unit {0})
overwrite s = (ok tt, (s.0, object_with 2))

typed_create_or_update_writes_example :
    Allowed client false overwrite 0
      (object_with 2)
      (read_current client (object_with 2) 1).0
      (typed_create_or_update (logged client) false overwrite ((1, []), (0, object_with 2))).0.0
      (typed_create_or_update (logged client) false overwrite ((1, []), (0, object_with 2))).1.0.1
typed_create_or_update_writes_example =
    typed_create_or_update_writes client false overwrite 0 (object_with 2) 1
