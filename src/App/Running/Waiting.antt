-- ===== src/App/Running/Waiting.antt =====
-- What the command waits for: the counter of the wait group, and when the command can go on.
use gardener_resource_manage.Prelude.{
  ℕ, zero, suc, ◌+◌, ◌≤◌, some, Bool, true, false, ◌||◌, ◌≡◌, refl, ap, arith,
}
use gardener_resource_manage.App.Running.{
  Part, cache, manager, Process, not_started, launched, working, failing, leaving, finished, Main,
  awaiting, selecting, waiting, returned, Running, process, set_process, context_done, start_error,
  pred, started, Step, stops, adds, ends, fails, leaves, synced, times_out, receives, sees_stop,
  waits, Runs, idle, steps,
}

-- Whether a goroutine is between wg.Add and wg.Done.
abbrev pub counted : Process → ℕ
counted not_started = 0
counted launched = 0
counted working = 1
counted (failing e) = 1
counted leaving = 1
counted finished = 0

-- A number of both goroutines together.
abbrev pub both : (Process → ℕ) → Running → ℕ
both f s = f s.of_cache + f s.of_manager

-- The command has left the select.
abbrev pub HasLeft : Main → Type 0
HasLeft awaiting = ⊥
HasLeft selecting = ⊥
HasLeft (waiting r) = Unit
HasLeft (returned r) = Unit

abbrev HasBegun : Process → Type 0
HasBegun not_started = ⊥
HasBegun launched = Unit
HasBegun working = Unit
HasBegun (failing e) = Unit
HasBegun leaving = Unit
HasBegun finished = Unit

-- The wait group counts the goroutines that have begun and have not ended; once the command has
-- left the select, the context of the processes is done; the manager begins after the cache is
-- filled.
pub record IsConsistent (s : Running) : Type 0 where
  pub group : s.wait_group ≡ both counted s
  pub told : HasLeft s.main → context_done s ≡ true
  pub begun : s.main ≡ awaiting → s.of_manager ≡ not_started

-- What a step of one goroutine may change.
abbrev pub moved : Part → Process → Main → ℕ → Bool → Running → Running
moved i q m g c s = set_process i q (record s { main = m; wait_group = g; cancelled = c })

moved-IsConsistent :
    (i : Part) (q : Process) (m : Main) (g : ℕ) (c : Bool) (s : Running)
    → IsConsistent s
    → g + counted (process i s) ≡ s.wait_group + counted q
    → (HasLeft m → (c || s.stopped) ≡ true)
    → (m ≡ awaiting → s.main ≡ awaiting)
    → HasBegun (process i s)
    → IsConsistent (moved i q m g c s)
moved-IsConsistent cache q m g c s is count told same begun = record {
  group = omega (arith, count, is.group);
  told = told;
  begun = λ e. is.begun (same e);
}
moved-IsConsistent manager q m g c s is count told same begun = record {
  group = omega (arith, count, is.group);
  told = told;
  begun = λ e. absurd (rw (is.begun (same e)) at begun);
}

or_true : (b : Bool) → (b || true) ≡ true
or_true true = refl
or_true false = refl

pub counted-process : (i : Part) (s : Running) → counted (process i s) ≤ both counted s
counted-process cache s = omega arith
counted-process manager s = omega arith

suc-pred : (n : ℕ) → 1 ≤ n → suc (pred n) ≡ n
suc-pred zero h = omega arith
suc-pred (suc n) h = refl

leaves_count :
    (i : Part) (s : Running)
    → process i s ≡ leaving
    → IsConsistent s
    → pred s.wait_group + counted (process i s) ≡ s.wait_group + counted finished
leaves_count i s e is =
    let below = counted-process i s in
    let one : 1 ≤ both counted s = rw e at below in
    let some_left : 1 ≤ s.wait_group = rw is.group one in
    rw e (omega (arith, suc-pred s.wait_group some_left))

pub Step-IsConsistent : {s t : Running} → Step s t → IsConsistent s → IsConsistent t
Step-IsConsistent {s} (stops e) is = record {
  group = is.group;
  told = λ left. or_true s.cancelled;
  begun = is.begun;
}
Step-IsConsistent {s} (adds i e) is =
    moved-IsConsistent i working s.main (suc s.wait_group) s.cancelled s is (rw e omega arith)
      is.told (λ e. e) (rw e tt)
Step-IsConsistent {s} (ends i e) is =
    moved-IsConsistent i leaving s.main s.wait_group s.cancelled s is (rw e refl) is.told (λ e. e)
      (rw e tt)
Step-IsConsistent {s} (fails i e w) is =
    moved-IsConsistent i (failing (start_error i e)) s.main s.wait_group s.cancelled s is
      (rw w refl) is.told (λ e. e) (rw w tt)
Step-IsConsistent {s} (leaves i e) is =
    moved-IsConsistent i finished s.main (pred s.wait_group) s.cancelled s is
      (leaves_count i s e is) is.told (λ e. e) (rw e tt)
Step-IsConsistent {s} (synced e) is = record {
  group = omega (arith, is.group, ap counted (is.begun e));
  told = λ left. elim left [ ];
  begun = λ e. ground arith;
}
Step-IsConsistent {s} (times_out e) is = record {
  group = is.group;
  told = λ left. refl;
  begun = λ e. ground arith;
}
Step-IsConsistent {s} (receives i f e w) is =
    moved-IsConsistent i leaving (waiting (some f)) s.wait_group true s is (rw w refl)
      (λ left. refl) (λ e. ground arith) (rw w tt)
Step-IsConsistent {s} (sees_stop e st) is = record {
  group = is.group;
  told = λ left. rw st (or_true s.cancelled);
  begun = λ e. ground arith;
}
Step-IsConsistent {s} (waits r e z) is = record {
  group = is.group;
  told = λ left. refl;
  begun = λ e. ground arith;
}

pub started-IsConsistent : IsConsistent started
started-IsConsistent = record { group = refl; told = λ left. elim left [ ]; begun = λ e. refl }

pub consistent : {n : ℕ} {s : Running} → Runs started n s → IsConsistent s
consistent idle = started-IsConsistent
consistent (steps before st) = Step-IsConsistent st (consistent before)
