-- ===== src/App/Running/Blocking.antt =====
-- The end of RunE where both processes fail, or one fails behind the signal: errChan has no buffer.
use gardener_resource_manage.Prelude.{ℕ, suc, ◌≤◌, Option, Bool, true, ◌≡◌, sym, ◌∙◌, arith}
use gardener_resource_manage.Errors.{Error}
use gardener_resource_manage.App.Running.{
  Part, cache, manager, Process, not_started, launched, working, failing, leaving, finished,
  awaiting, selecting, waiting, Running, process, start_error, pred, started, Step, stops, adds,
  ends, fails, leaves, synced, times_out, receives, sees_stop, waits, Runs, idle, steps,
}
use gardener_resource_manage.App.Running.Waiting.{
  counted, both, moved, IsConsistent, consistent, Step-IsConsistent, counted-process,
}

abbrev CanMove : Process → Type 0
CanMove not_started = Unit
CanMove launched = Unit
CanMove working = Unit
CanMove (failing e) = ⊥
CanMove leaving = Unit
CanMove finished = Unit

-- The command waits and the goroutine is at its send.
abbrev StuckWith : Part → Option Error → Error → Running → Type 0
StuckWith i r e s = (s.main ≡ waiting r) × (process i s ≡ failing e)

moved-StuckWith :
    (i j : Part) (q : Process) (g : ℕ) (c : Bool) (s : Running) (r : Option Error) (e : Error)
    → StuckWith i r e s
    → CanMove (process j s)
    → StuckWith i r e (moved j q s.main g c s)
moved-StuckWith cache cache q g c s r e (m, f) can = absurd (rw f at can)
moved-StuckWith cache manager q g c s r e stuck can = stuck
moved-StuckWith manager cache q g c s r e stuck can = stuck
moved-StuckWith manager manager q g c s r e (m, f) can = absurd (rw f at can)

stops-StuckWith :
    (i : Part) (s : Running) (r : Option Error) (e : Error)
    → StuckWith i r e s
    → StuckWith i r e (record s { stopped = true })
stops-StuckWith cache s r e stuck = stuck
stops-StuckWith manager s r e stuck = stuck

module _ (i : Part) (r : Option Error) (e : Error) where
  Step-StuckWith :
      {s t : Running} → Step s t → IsConsistent s → StuckWith i r e s → StuckWith i r e t
  Step-StuckWith {s} (stops st) is stuck = stops-StuckWith i s r e stuck
  Step-StuckWith {s} (adds j a) is stuck =
      moved-StuckWith i j working (suc s.wait_group) s.cancelled s r e stuck (rw a tt)
  Step-StuckWith {s} (ends j a) is stuck =
      moved-StuckWith i j leaving s.wait_group s.cancelled s r e stuck (rw a tt)
  Step-StuckWith {s} (fails j f a) is stuck =
      moved-StuckWith i j (failing (start_error j f)) s.wait_group s.cancelled s r e stuck (rw a tt)
  Step-StuckWith {s} (leaves j a) is stuck =
      moved-StuckWith i j finished (pred s.wait_group) s.cancelled s r e stuck (rw a tt)
  Step-StuckWith (synced m) is (w, f) = let no : awaiting ≡ waiting r = sym m ∙ w in ground arith
  Step-StuckWith (times_out m) is (w, f) = let no : awaiting ≡ waiting r = sym m ∙ w in ground arith
  Step-StuckWith (receives j e' m a) is (w, f) =
      let no : selecting ≡ waiting r = sym m ∙ w in ground arith
  Step-StuckWith (sees_stop m st) is (w, f) =
      let no : selecting ≡ waiting r = sym m ∙ w in ground arith
  Step-StuckWith {s} (waits r' m empty) is (w, f) =
      let below = counted-process i s in
      let one : 1 ≤ both counted s = rw f at below in
      let no : ⊥ = omega (arith, is.group, empty) in absurd no

  -- Once the command waits while a goroutine is at its send on errChan, whatever happens the
  -- command waits for good and the goroutine stays where it is: nothing receives any more.
  pub stuck_for_good :
      {n m : ℕ} {s t : Running}
      → Runs started n s
      → s.main ≡ waiting r
      → process i s ≡ failing e
      → Runs s m t
      → (t.main ≡ waiting r) × (process i t ≡ failing e)
  stuck_for_good {s = s} run w f more = (on more).1
    where
      on : {m : ℕ} {t : Running} → Runs s m t → IsConsistent t × StuckWith i r e t
      on idle = (consistent run, (w, f))
      on (steps before st) =
          let (is, stuck) = on before in (Step-IsConsistent st is, Step-StuckWith st is stuck)
