-- ===== src/Utils/Backoff/Rounds.antt =====
-- When exponentialBackoff succeeds and when it gives up, in a context that is not done.
use gardener_resource_manage.Prelude.{
  ℕ, zero, suc, ◌+◌, ◌<◌, Bool, true, false, none, ◌≡◌, refl, arith, ap, ◌∙◌,
}
use gardener_resource_manage.Errors.{Result, ok, err}
use gardener_resource_manage.Exec.{Exec}
use gardener_resource_manage.Utils.Backoff.{
  Backoff, Waiting, timed_out, paused, continued, backoff_loop, exponential_backoff, half_up,
  counted, waiting_counted,
}

module _ {W : Type 0} (waiting : Waiting W) (backoff : Backoff) (condition : Exec W Bool) where
  -- The world before the attempt of a number, if those before it were not satisfied.
  abbrev pub before_attempt : ℕ → ℕ → W → W
  before_attempt zero duration w = w
  before_attempt (suc k) duration w =
      before_attempt k (backoff.next duration)
        (waiting.sleep (backoff.jittered duration) (condition w).1)

  module _ (open_context : (w : W) → waiting.done w ≡ none) where
    paused_open :
        (duration : ℕ) (rest : Exec W (Unit {0})) (w : W)
        → paused waiting backoff condition duration rest w
          ≡ rest (waiting.sleep (backoff.jittered duration) w)
    paused_open duration rest w = rw (open_context w, paused) refl

    continued-false :
        (duration : ℕ) (rest : Exec W (Unit {0})) (r : Result Bool) (w : W)
        → r ≡ ok false
        → continued waiting backoff condition duration rest (r, w)
          ≡ rest (waiting.sleep (backoff.jittered duration) w)
    continued-false duration rest (ok false) w e = paused_open duration rest w
    continued-false duration rest (ok true) w e = ground arith
    continued-false duration rest (err x) w e = ground arith

    continued-true :
        (duration : ℕ) (rest : Exec W (Unit {0})) (r : Result Bool) (w : W)
        → r ≡ ok true
        → continued waiting backoff condition duration rest (r, w) ≡ (ok tt, w)
    continued-true duration rest (ok true) w e = refl
    continued-true duration rest (ok false) w e = ground arith
    continued-true duration rest (err x) w e = ground arith

    loop_reaches :
        (steps k duration : ℕ) (w : W)
        → k < half_up steps
        → ((j : ℕ) → j < k → (condition (before_attempt j duration w)).0 ≡ ok false)
        → (condition (before_attempt k duration w)).0 ≡ ok true
        → backoff_loop waiting backoff condition steps duration w
          ≡ (ok tt, (condition (before_attempt k duration w)).1)
    unfolding backoff_loop
    loop_reaches zero k duration w lt failed satisfied = absurd (omega arith)
    loop_reaches (suc zero) zero duration w lt failed satisfied =
        continued-true duration (λ w'. (err timed_out, w')) (condition w).0 (condition w).1
          satisfied
    loop_reaches (suc zero) (suc k) duration w lt failed satisfied = absurd (omega arith)
    loop_reaches (suc (suc n)) zero duration w lt failed satisfied =
        continued-true duration (backoff_loop waiting backoff condition n (backoff.next duration))
          (condition w).0 (condition w).1 satisfied
    loop_reaches (suc (suc n)) (suc k) duration w lt failed satisfied =
        continued-false duration (backoff_loop waiting backoff condition n (backoff.next duration))
          (condition w).0 (condition w).1 (failed 0 (omega arith))
        ∙ loop_reaches n k (backoff.next duration) _ (omega arith)
            (λ j lt'. failed (suc j) (omega arith)) satisfied

    -- In a context that is not done, the loop succeeds with the first attempt that is satisfied, if
    -- it is one of the attempts that half of the steps, rounded up, allow.
    pub exponential_backoff_reaches :
        (k : ℕ) (w : W)
        → k < half_up backoff.steps
        → ((j : ℕ) → j < k → (condition (before_attempt j backoff.duration w)).0 ≡ ok false)
        → (condition (before_attempt k backoff.duration w)).0 ≡ ok true
        → exponential_backoff waiting backoff condition w
          ≡ (ok tt, (condition (before_attempt k backoff.duration w)).1)
    unfolding exponential_backoff
    exponential_backoff_reaches k w = loop_reaches backoff.steps k backoff.duration w

module _ {W : Type 0} (waiting : Waiting W) (backoff : Backoff) (condition : Exec W Bool)
    (open_context : (w : W) → waiting.done w ≡ none)
    (never : (w : W) → (condition w).0 ≡ ok false) where
  loop_exhausted :
      (steps duration n : ℕ) (w : W)
      → ((backoff_loop
            (waiting_counted waiting)
            backoff
            (counted condition)
            steps
            duration
            (w, n)).0
          ≡ err timed_out)
        × ((backoff_loop
              (waiting_counted waiting)
              backoff
              (counted condition)
              steps
              duration
              (w, n)).1.1
            ≡ n + half_up steps)
  unfolding backoff_loop
  loop_exhausted zero duration n w = (refl, omega arith)
  loop_exhausted (suc zero) duration n w =
      let e =
        continued-false (waiting_counted waiting) backoff (counted condition)
          (λ s. open_context s.0) duration (λ w'. (err timed_out, w')) (condition w).0
          ((condition w).1, suc n) (never w) in
      (ap (λ r. r.0) e, ap (λ r. r.1.1) e ∙ omega arith)
  loop_exhausted (suc (suc m)) duration n w =
      let e =
        continued-false (waiting_counted waiting) backoff (counted condition)
          (λ s. open_context s.0) duration
          (backoff_loop (waiting_counted waiting) backoff (counted condition) m
            (backoff.next duration))
          (condition w).0 ((condition w).1, suc n) (never w) in
      let (timeout, count) = loop_exhausted m (backoff.next duration) (suc n) _ in
      (ap (λ r. r.0) e ∙ timeout, ap (λ r. r.1.1) e ∙ count ∙ omega arith)

  -- In a context that is not done, if the condition is never satisfied, the loop gives up with a
  -- timeout behind as many attempts as half of the steps, rounded up.
  pub exponential_backoff_exhausted :
      (w : W)
      → ((exponential_backoff (waiting_counted waiting) backoff (counted condition) (w, 0)).0
          ≡ err timed_out)
        × ((exponential_backoff (waiting_counted waiting) backoff (counted condition) (w, 0)).1.1
            ≡ half_up backoff.steps)
  unfolding exponential_backoff
  exponential_backoff_exhausted w =
      let (timeout, count) = loop_exhausted backoff.steps backoff.duration 0 w in
      (timeout, count ∙ omega arith)
