-- ===== src/App/Running/Ending.antt =====
-- How the command ends: it takes few steps, and stops where it returns or where a goroutine is
-- stuck.
use gardener_resource_manage.Prelude.{
  ℕ, suc, ◌+◌, ◌≤◌, Option, some, Bool, true, false, ◌≡◌, refl, ap, ◌⊎◌, inl, inr, arith,
}
use gardener_resource_manage.Prelude.Tests.{Bool-cases}
use gardener_resource_manage.Errors.{Error}
use gardener_resource_manage.App.Running.{
  Part, cache, manager, Process, not_started, launched, working, failing, leaving, finished, Main,
  awaiting, selecting, waiting, returned, Running, process, start_error, pred, started, Step, stops,
  adds, ends, fails, leaves, synced, times_out, receives, sees_stop, waits, Runs, idle, steps,
}
use gardener_resource_manage.App.Running.Waiting.{counted, both, moved, IsConsistent, consistent}

-- The steps that are left.
abbrev process_rank : Process → ℕ
process_rank not_started = 0
process_rank launched = 4
process_rank working = 3
process_rank (failing e) = 2
process_rank leaving = 1
process_rank finished = 0

abbrev main_rank : Main → ℕ
main_rank awaiting = 7
main_rank selecting = 2
main_rank (waiting r) = 1
main_rank (returned r) = 0

abbrev stop_rank : Bool → ℕ
stop_rank true = 0
stop_rank false = 1

abbrev rank : Running → ℕ
rank s = both process_rank s + main_rank s.main + stop_rank s.stopped

rank-moved :
    (i : Part) (q : Process) (m : Main) (g : ℕ) (c : Bool) (s : Running)
    → rank (moved i q m g c s) + process_rank (process i s) + main_rank s.main
      ≡ rank s + process_rank q + main_rank m
rank-moved cache q m g c s = omega arith
rank-moved manager q m g c s = omega arith

Step-rank : {s t : Running} → Step s t → suc (rank t) ≤ rank s
Step-rank {s} (stops e) = rw e omega arith
Step-rank {s} (adds i e) =
    let eq = rank-moved i working s.main (suc s.wait_group) s.cancelled s in
    omega (arith, eq, ap process_rank e)
Step-rank {s} (ends i e) =
    let eq = rank-moved i leaving s.main s.wait_group s.cancelled s in
    omega (arith, eq, ap process_rank e)
Step-rank {s} (fails i e w) =
    let eq = rank-moved i (failing (start_error i e)) s.main s.wait_group s.cancelled s in
    omega (arith, eq, ap process_rank w)
Step-rank {s} (leaves i e) =
    let eq = rank-moved i finished s.main (pred s.wait_group) s.cancelled s in
    omega (arith, eq, ap process_rank e)
Step-rank {s} (synced e) = omega (arith, ap main_rank e)
Step-rank {s} (times_out e) = omega (arith, ap main_rank e)
Step-rank {s} (receives i f e w) =
    let eq = rank-moved i leaving (waiting (some f)) s.wait_group true s in
    omega (arith, eq, ap process_rank w, ap main_rank e)
Step-rank {s} (sees_stop e st) = omega (arith, ap main_rank e)
Step-rank {s} (waits r e z) = omega (arith, ap main_rank e)

Runs-rank : {n : ℕ} {s : Running} → Runs started n s → n + rank s ≤ 12
Runs-rank idle = omega arith
Runs-rank (steps before st) = omega (arith, Runs-rank before, Step-rank st)

-- A goroutine is at its send while the command has left the select.
abbrev pub IsStuck : Part → Running → Type 0
IsStuck i s = (r : Option Error) × (e : Error) × (s.main ≡ waiting r) × (process i s ≡ failing e)

-- A goroutine that counts can go on, or it is at its send.
part_progress :
    (i : Part) (s : Running)
    → (counted (process i s) ≡ 0)
      ⊎ ((t : Running) × Step s t)
      ⊎ ((e : Error) × (process i s ≡ failing e))
part_progress i s = by_process (process i s) refl
  where
    by_process :
        (q : Process)
        → process i s ≡ q
        → (counted (process i s) ≡ 0)
          ⊎ ((t : Running) × Step s t)
          ⊎ ((e : Error) × (process i s ≡ failing e))
    by_process not_started e = inl (ap counted e)
    by_process launched e = inl (ap counted e)
    by_process working e = inr (inl (_, ends i e))
    by_process (failing f) e = inr (inr (f, e))
    by_process leaving e = inr (inl (_, leaves i e))
    by_process finished e = inl (ap counted e)

abbrev pub Outcome : Running → Type 0
Outcome s =
    ((r : Option Error) × (s.main ≡ returned r))
    ⊎ ((t : Running) × Step s t)
    ⊎ ((i : Part) × IsStuck i s)

waiting_progress :
    (s : Running) (r : Option Error) → IsConsistent s → s.main ≡ waiting r → Outcome s
waiting_progress s r is e = elim (part_progress cache s) [
  | inr (inl step) ↦ inr (inl step)
  | inr (inr (f, at)) ↦ inr (inr (cache, (r, f, e, at)))
  | inl none_in_cache ↦ elim (part_progress manager s) [
    | inr (inl step) ↦ inr (inl step)
    | inr (inr (f, at)) ↦ inr (inr (manager, (r, f, e, at)))
    | inl none_in_manager ↦
        let empty : s.wait_group ≡ 0 = omega (arith, is.group, none_in_cache, none_in_manager) in
        inr (inl (_, waits r e empty))
  ]
]

progress : (s : Running) → IsConsistent s → Outcome s
progress s is = by_main s.main refl
  where
    by_main : (m : Main) → s.main ≡ m → Outcome s
    by_main awaiting e = inr (inl (_, times_out e))
    by_main selecting e = elim (Bool-cases s.stopped) [
      | inl st ↦ inr (inl (_, sees_stop e st))
      | inr st ↦ inr (inl (_, stops st))
    ]
    by_main (waiting r) e = waiting_progress s r is e
    by_main (returned r) e = inl (r, e)

-- Each run of the command has at most twelve steps. In every reachable state, the wait group counts
-- the goroutines between Add and Done, the context of the processes is done if the command has left
-- its select, and the goroutine of the manager is not there before the cache is filled; and the
-- command has returned, or some step is possible, or it waits while a goroutine is at its send.
pub running_ends : {n : ℕ} {s : Running} → Runs started n s → (n ≤ 12) × IsConsistent s × Outcome s
running_ends run =
    let bound = Runs-rank run in
    let is = consistent run in (omega (arith, bound), is, progress _ is)
