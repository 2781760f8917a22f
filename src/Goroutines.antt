-- ===== src/Goroutines.antt =====
-- Goroutines that talk to an API server and send one result each over a channel: between two of its
-- calls the other goroutines and other clients may run. A schedule is a sequence of steps.
use gardener_resource_manage.Prelude.{ℕ, zero, suc, Option, some, List, [], ◌∷◌, ◌++◌, ◌≡◌}
use gardener_resource_manage.Prelude.Lists.{set, get_elem?}
use gardener_resource_manage.Errors.{Result}
use gardener_resource_manage.Exec.{Exec}
pub mod Laws

-- What is left of a goroutine: its result, or a call and what it does with the answer.
pub data Task (W A : Type 0) : Type 0 where
  send : A → Task W A
  call : (W → W) → (W → Task W A) → Task W A

abbrev pub perform : {W A B : Type 0} → Exec W B → (Result B → Task W A) → Task W A
perform m next = call (λ w. (m w).1) (λ w. next (m w).0)

-- One goroutine that runs alone.
unfoldable pub run : {W A : Type 0} → Task W A → W → A × W
run (send a) w = (a, w)
run (call effect next) w = run (next w) (effect w)

-- Goroutines, the results that were received, the last one first, and the world.
pub record Pool (W A : Type 0) : Type 0 where
  pub tasks : List (Task W A)
  pub received : List A
  pub world : W

abbrev pub remove_at : {A : Type 0} → List A → ℕ → List A
remove_at [] i = []
remove_at (x ∷ xs) zero = xs
remove_at (x ∷ xs) (suc i) = x ∷ remove_at xs i

abbrev pub after_call : {W A : Type 0} → Pool W A → ℕ → (W → W) → (W → Task W A) → Pool W A
after_call p i effect next = record {
  tasks = set p.tasks i (next p.world);
  received = p.received;
  world = effect p.world;
}

abbrev pub after_send : {W A : Type 0} → Pool W A → ℕ → A → Pool W A
after_send p i a = record {
  tasks = remove_at p.tasks i;
  received = a ∷ p.received;
  world = p.world;
}

-- A step of some goroutine: a call, or its result that the receiver takes.
pub data Step {W A : Type 0} (p : Pool W A) : Pool W A → Type 0 where
  calls :
      (i : ℕ) (effect : W → W) (next : W → Task W A)
      → get_elem? p.tasks i ≡ some (call effect next)
      → Step p (after_call p i effect next)
  sends : (i : ℕ) (a : A) → get_elem? p.tasks i ≡ some (send a) → Step p (after_send p i a)

-- A schedule from a pool, with the number of steps of the goroutines; `Other` are the changes that
-- other clients make to the world between them.
pub data Schedule {W A : Type 0} (Other : W → W → Type 0) (p : Pool W A)
    : ℕ → Pool W A → Type 0 where
  idle : Schedule Other p 0 p
  steps : {n : ℕ} {q r : Pool W A} → Schedule Other p n q → Step q r → Schedule Other p (suc n) r
  others :
      {n : ℕ} {q : Pool W A} (w : W)
      → Schedule Other p n q
      → Other q.world w
      → Schedule Other p n (record q { world = w })
