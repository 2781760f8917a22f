-- ===== src/Utils/Backoff.antt =====
-- exponentialBackoff. The counter is incremented in the header and once more in the body, so a
-- round takes two of the steps.
use gardener_resource_manage.Prelude.{
  ℕ, zero, suc, ◌+◌, ◌≤◌, Bool, true, false, Option, none, some, ◌≡◌, refl, arith, ap, inl, inr,
}
use gardener_resource_manage.Prelude.Tests.{Option-cases}
use mathlib.Core.Path.{subst}
use gardener_resource_manage.Errors.{Reason, Error, Result, ok, err}
use gardener_resource_manage.Exec.{Exec}
pub mod Rounds

-- wait.Backoff; `next` multiplies a duration by the factor, `jittered` is wait.Jitter where the
-- jitter is positive and the identity otherwise.
pub record Backoff : Type 0 where
  pub steps : ℕ
  pub duration : ℕ
  pub next : ℕ → ℕ
  pub jittered : ℕ → ℕ

-- What the loop asks of the outside: whether the context is done, and the world after a pause.
pub record Waiting (W : Type 0) : Type 0 where
  pub done : W → Option Error
  pub sleep : ℕ → W → W

-- wait.ErrWaitTimeout
abbrev pub timed_out : Error
timed_out = record { reason = Reason.unknown; message = "timed out waiting for the condition" }

module _ {W : Type 0} (waiting : Waiting W) (backoff : Backoff) (condition : Exec W Bool) where
  -- The pause behind an attempt, unless the context is done.
  abbrev pub paused : ℕ → Exec W (Unit {0}) → Exec W (Unit {0})
  paused duration rest w = elim (waiting.done w) [
    | some e ↦ (err e, w)
    | none ↦ rest (waiting.sleep (backoff.jittered duration) w)
  ]

  abbrev pub continued : ℕ → Exec W (Unit {0}) → Result Bool × W → Result (Unit {0}) × W
  continued duration rest (err e, w) = (err e, w)
  continued duration rest (ok true, w) = (ok tt, w)
  continued duration rest (ok false, w) = paused duration rest w

  -- The argument is `backoff.Steps - i`.
  unfoldable pub backoff_loop : ℕ → ℕ → Exec W (Unit {0})
  backoff_loop zero duration w = (err timed_out, w)
  backoff_loop (suc zero) duration w = continued duration (λ w'. (err timed_out, w')) (condition w)
  backoff_loop (suc (suc n)) duration w =
      let rest = backoff_loop n (backoff.next duration) in continued duration rest (condition w)

  unfoldable pub exponential_backoff : Exec W (Unit {0})
  unfolding backoff_loop
  exponential_backoff = backoff_loop backoff.steps backoff.duration

-- Half of the steps, rounded up.
abbrev pub half_up : ℕ → ℕ
half_up zero = 0
half_up (suc zero) = 1
half_up (suc (suc n)) = suc (half_up n)

-- A condition beside a count of its calls.
abbrev pub counted : {W : Type 0} → Exec W Bool → Exec (W × ℕ) Bool
counted condition (w, n) = let (r, w') = condition w in (r, (w', suc n))

abbrev pub waiting_counted : {W : Type 0} → Waiting W → Waiting (W × ℕ)
waiting_counted waiting = record {
  done = λ s. waiting.done s.0;
  sleep = λ d s. (waiting.sleep d s.0, s.1);
}

module _ {W : Type 0} (waiting : Waiting W) (backoff : Backoff) (condition : Exec W Bool) where
  paused_bounded :
      (duration k n : ℕ) (rest : Exec (W × ℕ) (Unit {0})) (w : W)
      → n ≤ k
      → ((w' : W) → (rest (w', n)).1.1 ≤ k)
      → (paused (waiting_counted waiting) backoff (counted condition) duration rest (w, n)).1.1 ≤ k
  paused_bounded duration k n rest w n≤k hyp = elim (Option-cases (waiting.done w)) [
    | inl e ↦ rw (e, paused) (hyp _)
    | inr (e, is_done) ↦ rw (is_done, paused) n≤k
  ]

  continued_bounded :
      (duration k n : ℕ) (rest : Exec (W × ℕ) (Unit {0})) (r : Result Bool) (w : W)
      → n ≤ k
      → ((w' : W) → (rest (w', n)).1.1 ≤ k)
      → (continued
          (waiting_counted waiting)
          backoff
          (counted condition)
          duration
          rest
          (r, (w, n))).1.1
        ≤ k
  continued_bounded duration k n rest (err e) w n≤k hyp = n≤k
  continued_bounded duration k n rest (ok true) w n≤k hyp = n≤k
  continued_bounded duration k n rest (ok false) w n≤k hyp =
      paused_bounded duration k n rest w n≤k hyp

  loop_bounded :
      (steps duration n : ℕ) (w : W)
      → (backoff_loop
          (waiting_counted waiting)
          backoff
          (counted condition)
          steps
          duration
          (w, n)).1.1
        ≤ n + half_up steps
  unfolding backoff_loop
  loop_bounded zero duration n w = omega arith
  loop_bounded (suc zero) duration n w =
      continued_bounded duration (n + 1) (suc n) (λ w'. (err timed_out, w')) (condition w).0
        (condition w).1 (omega arith) (λ w'. omega arith)
  loop_bounded (suc (suc m)) duration n w =
      continued_bounded duration (n + suc (half_up m)) (suc n)
        (backoff_loop (waiting_counted waiting) backoff (counted condition) m
          (backoff.next duration))
        (condition w).0 (condition w).1 (omega arith)
        (λ w'. let h = loop_bounded m (backoff.next duration) (suc n) w' in omega arith)

  -- The loop calls the condition for at most half of the steps, rounded up.
  pub exponential_backoff_attempts :
      (w : W)
      → (exponential_backoff (waiting_counted waiting) backoff (counted condition) (w, 0)).1.1
        ≤ half_up backoff.steps
  unfolding exponential_backoff
  exponential_backoff_attempts w =
      let h = loop_bounded backoff.steps backoff.duration 0 w in omega arith

  paused_ok :
      (P : W → Type 0) (duration : ℕ) (rest : Exec W (Unit {0})) (w w' : W)
      → ((v : W) → rest v ≡ (ok tt, w') → P w')
      → paused waiting backoff condition duration rest w ≡ (ok tt, w')
      → P w'
  paused_ok P duration rest w w' hyp eq = elim (Option-cases (waiting.done w)) [
    | inl e ↦ hyp _ (rw (e, paused) at eq)
    | inr (e, is_done) ↦ ground (arith, rw (is_done, paused) at eq)
  ]

  continued_ok :
      (P : W → Type 0) (duration : ℕ) (rest : Exec W (Unit {0})) (r : Result Bool) (w w' : W)
      → (r ≡ ok true → P w)
      → ((v : W) → rest v ≡ (ok tt, w') → P w')
      → continued waiting backoff condition duration rest (r, w) ≡ (ok tt, w')
      → P w'
  continued_ok P duration rest (err e) w w' here there eq = ground arith
  continued_ok P duration rest (ok true) w w' here there eq = subst P (ap (λ x. x.1) eq) (here refl)
  continued_ok P duration rest (ok false) w w' here there eq =
      paused_ok P duration rest w w' there eq

  loop_ok :
      (P : W → Type 0) (steps duration : ℕ) (w w' : W)
      → ((v : W) → (condition v).0 ≡ ok true → P (condition v).1)
      → backoff_loop waiting backoff condition steps duration w ≡ (ok tt, w')
      → P w'
  unfolding backoff_loop
  loop_ok P zero duration w w' after eq = ground arith
  loop_ok P (suc zero) duration w w' after eq =
      continued_ok P duration (λ v. (err timed_out, v)) (condition w).0 (condition w).1 w' (after w)
        (λ v e. ground arith) eq
  loop_ok P (suc (suc m)) duration w w' after eq =
      continued_ok P duration (backoff_loop waiting backoff condition m (backoff.next duration))
        (condition w).0 (condition w).1 w' (after w)
        (λ v e. loop_ok P m (backoff.next duration) v w' after e) eq

  -- What holds behind every call of the condition that is satisfied holds when the loop succeeds.
  pub exponential_backoff_ok :
      (P : W → Type 0) (w w' : W)
      → ((v : W) → (condition v).0 ≡ ok true → P (condition v).1)
      → exponential_backoff waiting backoff condition w ≡ (ok tt, w')
      → P w'
  unfolding exponential_backoff
  exponential_backoff_ok P w w' after eq = loop_ok P backoff.steps backoff.duration w w' after eq
