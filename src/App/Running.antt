-- ===== src/App/Running.antt =====
-- cmd/gardener-resource-manager/app/app.go, the end of RunE: the target cache and the manager run
-- in goroutines of their own, and the command waits for an error or for the signal to stop.
use gardener_resource_manage.Prelude.{
  ℕ, zero, suc, ◌+◌, Option, none, some, Bool, true, false, ◌||◌, ◌≡◌,
}
use gardener_resource_manage.Errors.{Error, errorf, ◌+++◌}
pub mod Waiting
pub mod Blocking
pub mod Ending

-- What is started: the cache of the target cluster, or the manager.
pub data Part : Type 0 where
  cache : Part
  manager : Part

-- Where a goroutine is: before wg.Add, in Start, at the send on errChan, before wg.Done, behind it.
pub data Process : Type 0 where
  not_started : Process
  launched : Process
  working : Process
  failing : Error → Process
  leaving : Process
  finished : Process

-- Where RunE is: in WaitForCacheSync, in the select, in wg.Wait with what it will return, or at its
-- end.
pub data Main : Type 0 where
  awaiting : Main
  selecting : Main
  waiting : Option Error → Main
  returned : Option Error → Main

-- `cancelled` tells whether cancel was called, `stopped` whether the context of the command is
-- done.
pub record Running : Type 0 where
  pub of_cache : Process
  pub of_manager : Process
  pub main : Main
  pub wait_group : ℕ
  pub cancelled : Bool
  pub stopped : Bool

abbrev pub process : Part → Running → Process
process cache s = s.of_cache
process manager s = s.of_manager

abbrev pub set_process : Part → Process → Running → Running
set_process cache q s = record s { of_cache = q }
set_process manager q s = record s { of_manager = q }

-- ctx is made from the context of the command.
abbrev pub context_done : Running → Bool
context_done s = s.cancelled || s.stopped

abbrev pub start_error : Part → Error → Error
start_error cache e = errorf ("error syncing target cache: " +++ e.message)
start_error manager e = errorf ("error running manager: " +++ e.message)

abbrev pub timed_out : Error
timed_out = errorf "timed out waiting for target cache to sync"

abbrev pub pred : ℕ → ℕ
pred zero = zero
pred (suc n) = n

-- The state behind the first go statement.
abbrev pub started : Running
started = record {
  of_cache = launched;
  of_manager = not_started;
  main = awaiting;
  wait_group = 0;
  cancelled = false;
  stopped = false;
}

abbrev pub after_synced : Running → Running
after_synced s = record s { of_manager = launched; main = selecting }

-- The deferred cancel runs when the command returns.
abbrev pub after_timeout : Running → Running
after_timeout s = record s { main = returned (some timed_out); cancelled = true }

abbrev pub after_add : Part → Running → Running
after_add i s = set_process i working (record s { wait_group = suc s.wait_group })

abbrev pub after_receive : Part → Error → Running → Running
after_receive i e s = set_process i leaving (record s { main = waiting (some e); cancelled = true })

abbrev pub after_done : Part → Running → Running
after_done i s = set_process i finished (record s { wait_group = pred s.wait_group })

-- A step of a goroutine, of the command, or the signal. Start may return at any time, with an error
-- or without one.
pub data Step (s : Running) : Running → Type 0 where
  stops : s.stopped ≡ false → Step s (record s { stopped = true })
  adds : (i : Part) → process i s ≡ launched → Step s (after_add i s)
  ends : (i : Part) → process i s ≡ working → Step s (set_process i leaving s)
  fails :
      (i : Part) (e : Error)
      → process i s ≡ working
      → Step s (set_process i (failing (start_error i e)) s)
  leaves : (i : Part) → process i s ≡ leaving → Step s (after_done i s)
  synced : s.main ≡ awaiting → Step s (after_synced s)
  times_out : s.main ≡ awaiting → Step s (after_timeout s)
  receives :
      (i : Part) (e : Error)
      → s.main ≡ selecting
      → process i s ≡ failing e
      → Step s (after_receive i e s)
  sees_stop : s.main ≡ selecting → s.stopped ≡ true → Step s (record s { main = waiting none })
  waits :
      (r : Option Error)
      → s.main ≡ waiting r
      → s.wait_group ≡ 0
      → Step s (record s { main = returned r; cancelled = true })

-- Runs from a state, with the number of their steps.
pub data Runs (s : Running) : ℕ → Running → Type 0 where
  idle : Runs s 0 s
  steps : {n : ℕ} {t u : Running} → Runs s n t → Step t u → Runs s (suc n) u
