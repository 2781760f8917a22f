-- ===== src/Goroutines/Laws.antt =====
-- Invariants, the number of results and the length of schedules.
use gardener_resource_manage.Prelude.{
  ℕ, zero, suc, ◌+◌, ◌≤◌, ◌*◌, some, List, [], ◌∷◌, ◌≡◌, refl, inl, inr, ◌⊎◌, arith,
}
use gardener_resource_manage.Prelude.Lists.{set, get_elem?, All, Forall₂, length}
use gardener_resource_manage.Goroutines.{
  Task, send, call, Pool, remove_at, Step, calls, sends, Schedule, idle, steps, others,
}

module _ {A : Type 0} (P : A → Type 0) where
  All-set : (xs : List A) (i : ℕ) (y : A) → All P xs → P y → All P (set xs i y)
  All-set [] i y h k = tt
  All-set (x ∷ xs) zero y h k = (k, h.1)
  All-set (x ∷ xs) (suc i) y h k = (h.0, All-set xs i y h.1 k)

  All-remove_at : (xs : List A) (i : ℕ) → All P xs → All P (remove_at xs i)
  All-remove_at [] i h = tt
  All-remove_at (x ∷ xs) zero h = h.1
  All-remove_at (x ∷ xs) (suc i) h = (h.0, All-remove_at xs i h.1)

  All-get : (xs : List A) (i : ℕ) (x : A) → All P xs → get_elem? xs i ≡ some x → P x
  All-get [] i x h e = ground arith
  All-get (y ∷ xs) zero x h e = let e' : y ≡ x = cc in rw e' at h.0
  All-get (y ∷ xs) (suc i) x h e = All-get xs i x h.1 e

module _ {A : Type 0} where
  length-set : (xs : List A) (i : ℕ) (y : A) → length (set xs i y) ≡ length xs
  length-set [] i y = refl
  length-set (x ∷ xs) zero y = refl
  length-set (x ∷ xs) (suc i) y = omega (arith, length-set xs i y)

  length-remove_at :
      (xs : List A) (i : ℕ) (x : A)
      → get_elem? xs i ≡ some x
      → suc (length (remove_at xs i)) ≡ length xs
  length-remove_at [] i x e = ground arith
  length-remove_at (y ∷ xs) zero x e = refl
  length-remove_at (y ∷ xs) (suc i) x e = omega (arith, length-remove_at xs i x e)

module _ {W A : Type 0} (Inv : W → Type 0) (Good : A → Type 0) where
  -- From a world in the invariant on, the calls of the goroutine keep it, whatever others do that
  -- keep it, and the result is good.
  abbrev pub Safe : Task W A → Type 0
  Safe (send a) = Good a
  Safe (call effect next) = (w : W) → Inv w → Inv (effect w) × Safe (next w)

  pub record IsSafe (p : Pool W A) : Type 0 where
    pub tasks : All Safe p.tasks
    pub received : All Good p.received
    pub world : Inv p.world

  Step-IsSafe : {p q : Pool W A} → Step p q → IsSafe p → IsSafe q
  Step-IsSafe {p} (calls i effect next e) s =
      let (inv, safe) = All-get Safe p.tasks i (call effect next) s.tasks e p.world s.world in
      record {
        tasks = All-set Safe p.tasks i (next p.world) s.tasks safe;
        received = s.received;
        world = inv;
      }
  Step-IsSafe {p} (sends i a e) s = record {
    tasks = All-remove_at Safe p.tasks i s.tasks;
    received = (All-get Safe p.tasks i (send a) s.tasks e, s.received);
    world = s.world;
  }

  pub Schedule-IsSafe :
      {Other : W → W → Type 0} {p : Pool W A} {n : ℕ} {q : Pool W A}
      → ((w w' : W) → Other w w' → Inv w → Inv w')
      → IsSafe p
      → Schedule Other p n q
      → IsSafe q
  Schedule-IsSafe keep s idle = s
  Schedule-IsSafe keep s (steps before st) = Step-IsSafe st (Schedule-IsSafe keep s before)
  Schedule-IsSafe keep s (others {q = q} w before o) =
      let t = Schedule-IsSafe keep s before in
      record { tasks = t.tasks; received = t.received; world = keep q.world w o t.world }

-- The steps that goroutines with so many calls left can make.
abbrev total : List ℕ → ℕ
total [] = 0
total (n ∷ ns) = suc n + total ns

module _ {W A : Type 0} where
  -- The goroutine makes at most so many calls.
  abbrev pub Calls : ℕ → Task W A → Type 0
  Calls n (send a) = Unit
  Calls zero (call effect next) = ⊥
  Calls (suc n) (call effect next) = (w : W) → Calls n (next w)

  Step-results :
      {p q : Pool W A}
      → Step p q
      → length q.tasks + length q.received ≡ length p.tasks + length p.received
  Step-results {p} (calls i effect next e) = omega (arith, length-set p.tasks i (next p.world))
  Step-results {p} (sends i a e) = omega (arith, length-remove_at p.tasks i (send a) e)

  -- No result is lost.
  pub Schedule-results :
      {Other : W → W → Type 0} {p : Pool W A} {n : ℕ} {q : Pool W A}
      → Schedule Other p n q
      → length q.tasks + length q.received ≡ length p.tasks + length p.received
  Schedule-results idle = refl
  Schedule-results (steps before st) = omega (arith, Schedule-results before, Step-results st)
  Schedule-results (others w before o) = Schedule-results before

  -- Some goroutine can go on until all results are received.
  pub progress : (p : Pool W A) → (p.tasks ≡ []) ⊎ ((q : Pool W A) × Step p q)
  progress p = by_tasks p.tasks refl
    where
      by_tasks :
          (ts : List (Task W A)) → p.tasks ≡ ts → (p.tasks ≡ []) ⊎ ((q : Pool W A) × Step p q)
      by_tasks [] e = inl e
      by_tasks (send a ∷ ts) e = inr (_, sends 0 a (rw e refl))
      by_tasks (call effect next ∷ ts) e = inr (_, calls 0 effect next (rw e refl))

  total-call :
      (ns : List ℕ) (ts : List (Task W A)) (i : ℕ) (effect : W → W) (next : W → Task W A) (w : W)
      → Forall₂ Calls ns ts
      → get_elem? ts i ≡ some (call effect next)
      → (ms : List ℕ) × Forall₂ Calls ms (set ts i (next w)) × (suc (total ms) ≡ total ns)
  total-call [] [] i effect next w h e = ground arith
  total-call [] (t ∷ ts) i effect next w h e = elim h [ ]
  total-call (n ∷ ns) [] i effect next w h e = elim h [ ]
  total-call (zero ∷ ns) (t ∷ ts) zero effect next w h e =
      let e' : t ≡ call effect next = cc in absurd (rw e' at h.0)
  total-call (suc n ∷ ns) (t ∷ ts) zero effect next w h e =
      let e' : t ≡ call effect next = cc in
      let left : Calls (suc n) (call effect next) = rw e' at h.0 in
      (n ∷ ns, (left w, h.1), omega arith)
  total-call (n ∷ ns) (t ∷ ts) (suc i) effect next w h e =
      let (ms, hs, eq) = total-call ns ts i effect next w h.1 e in (n ∷ ms, (h.0, hs), omega arith)

  total-send :
      (ns : List ℕ) (ts : List (Task W A)) (i : ℕ) (a : A)
      → Forall₂ Calls ns ts
      → get_elem? ts i ≡ some (send a)
      → (ms : List ℕ) × Forall₂ Calls ms (remove_at ts i) × (suc (total ms) ≤ total ns)
  total-send [] [] i a h e = ground arith
  total-send [] (t ∷ ts) i a h e = elim h [ ]
  total-send (n ∷ ns) [] i a h e = elim h [ ]
  total-send (n ∷ ns) (t ∷ ts) zero a h e = (ns, h.1, omega arith)
  total-send (n ∷ ns) (t ∷ ts) (suc i) a h e =
      let (ms, hs, le) = total-send ns ts i a h.1 e in (n ∷ ms, (h.0, hs), omega arith)

  Step-total :
      {p q : Pool W A}
      → Step p q
      → (ns : List ℕ) → Forall₂ Calls ns p.tasks
      → (ms : List ℕ) × Forall₂ Calls ms q.tasks × (suc (total ms) ≤ total ns)
  Step-total {p} (calls i effect next e) ns h =
      let (ms, hs, eq) = total-call ns p.tasks i effect next p.world h e in (ms, hs, omega arith)
  Step-total {p} (sends i a e) ns h = total-send ns p.tasks i a h e

  Schedule-total :
      {Other : W → W → Type 0} {p : Pool W A} {n : ℕ} {q : Pool W A} (ns : List ℕ)
      → Forall₂ Calls ns p.tasks
      → Schedule Other p n q
      → (ms : List ℕ) × Forall₂ Calls ms q.tasks × (n + total ms ≤ total ns)
  Schedule-total ns h idle = (ns, h, omega arith)
  Schedule-total ns h (steps before st) =
      let (ms, hs, le) = Schedule-total ns h before in
      let (ms', hs', le') = Step-total st ms hs in (ms', hs', omega arith)
  Schedule-total ns h (others w before o) = Schedule-total ns h before

  same_bound :
      (n : ℕ) (ts : List (Task W A))
      → All (Calls n) ts
      → (ns : List ℕ) × Forall₂ Calls ns ts × (total ns ≡ suc n * length ts)
  same_bound n [] h = ([], tt, omega arith)
  same_bound n (t ∷ ts) h =
      let (ns, hs, eq) = same_bound n ts h.1 in (n ∷ ns, (h.0, hs), grind arith)

  -- Goroutines with a bound on their calls take a bounded number of steps, in any schedule.
  pub Schedule_bounded :
      {Other : W → W → Type 0} {p : Pool W A} {n : ℕ} {q : Pool W A} (k : ℕ)
      → All (Calls k) p.tasks
      → Schedule Other p n q
      → n ≤ suc k * length p.tasks
  Schedule_bounded {p = p} k h run =
      let (ns, hs, eq) = same_bound k p.tasks h in
      let (ms, hs', le) = Schedule-total ns hs run in omega arith
