-- ===== src/Tests/Starting.antt =====
-- The end of RunE on concrete runs.
use gardener_resource_manage.Prelude.{◌≤◌, none, some, true, ◌≡◌, refl}
use gardener_resource_manage.Errors.{Error, errorf}
use gardener_resource_manage.App.Running.{
  cache, manager, Process, launched, failing, waiting, returned, Running, process, set_process,
  start_error, started, after_synced, after_add, after_receive, after_done, stops, adds, ends,
  fails, leaves, synced, receives, sees_stop, waits, Runs, idle, steps,
}
use gardener_resource_manage.App.Running.Waiting.{IsConsistent}
use gardener_resource_manage.App.Running.Ending.{Outcome, running_ends}
use gardener_resource_manage.App.Running.Blocking.{stuck_for_good}

abbrev lost : Error
lost = errorf "leader election lost"

-- Both processes are in Start.
abbrev both_working : Running
both_working = after_add manager (after_synced (after_add cache started))

abbrev to_both_working : Runs started 3 both_working
to_both_working = steps (steps (steps idle (adds cache refl)) (synced refl)) (adds manager refl)

-- The cache fails, then the manager; the command takes the error of the cache.
abbrev both_failed : Running
both_failed =
    set_process manager (failing (start_error manager lost))
      (set_process cache (failing (start_error cache lost)) both_working)

abbrev half_received : Running
half_received = after_receive cache (start_error cache lost) both_failed

abbrev to_half_received : Runs started 6 half_received
to_half_received =
    steps (steps (steps to_both_working (fails cache lost refl)) (fails manager lost refl))
      (receives cache (start_error cache lost) refl refl)

-- The goroutine of the cache goes on to its end, and the signal to stop arrives.
abbrev later : Running
later = record (after_done cache half_received) { stopped = true }

abbrev to_later : Runs half_received 2 later
to_later = steps (steps idle (leaves cache refl)) (stops refl)

stuck_for_good_example :
    (later.main ≡ waiting (some (start_error cache lost)))
    × (process manager later ≡ failing (start_error manager lost))
stuck_for_good_example =
    stuck_for_good manager (some (start_error cache lost)) (start_error manager lost)
      to_half_received refl refl to_later

running_ends_example : (6 ≤ 12) × IsConsistent half_received × Outcome half_received
running_ends_example = running_ends to_half_received

-- The signal arrives, both processes end, and the command returns without an error.
abbrev stopped_well : Running
stopped_well =
    record (after_done manager (
      set_process manager Process.leaving (
        after_done cache (
          set_process cache Process.leaving
            (record both_working { main = waiting none; stopped = true }))))) {
              main = returned none;
              cancelled = true;
            }

to_stopped_well : Runs started 10 stopped_well
to_stopped_well =
    steps
      (steps
        (steps
          (steps
            (steps (steps (steps to_both_working (stops refl)) (sees_stop refl refl))
              (ends cache refl))
            (leaves cache refl))
          (ends manager refl))
        (leaves manager refl))
      (waits none refl refl)

-- The goroutine of the manager has not come to wg.Add when the command returns.
abbrev left_behind : Running
left_behind =
    record (after_done cache (
      set_process cache Process.leaving (record (after_synced (after_add cache started)) {
        main = waiting none;
        stopped = true;
      }))) { main = returned none; cancelled = true }

to_left_behind : Runs started 7 left_behind
to_left_behind =
    steps
      (steps
        (steps
          (steps (steps (steps (steps idle (adds cache refl)) (synced refl)) (stops refl))
            (sees_stop refl refl))
          (ends cache refl))
        (leaves cache refl))
      (waits none refl refl)

left_behind_launched : left_behind.of_manager ≡ launched
left_behind_launched = refl
