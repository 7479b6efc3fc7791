-- ===== src/Retry/Attempts.antt =====
-- How often Retry of src/driver/retry.go calls its function.
use mathlib.Core.Path.{subst}
use gopher_cypher.Common.{
  sym, ◌∙◌, ap, ℕ, zero, suc, ◌+◌, ◌≤◌, ◌≡◌, refl, arith, Bool, true, false, Option, none, some,
}
use gopher_cypher.Common.Int.{ℤ, pos, negsuc}
use gopher_cypher.Retry.Errors.{GoError}
use gopher_cypher.Retry.Loop.{
  on_retry, Report, Setting, Tried, success, failure, gave_up, Run, stop, with_call, reporting,
  exhausted, after_sleep, pause, again, on_failed_try, after_try, after_check, attempts,
  run_attempts, retry,
}

-- The attempts that a policy allows.
abbrev pub allowed : ℤ → ℕ
allowed (pos n) = n
allowed (negsuc n) = 0

module _ {W T : Type 0} (s : Setting W T) where
  -- The calls of the rounds that may follow.
  abbrev AtMost : ℕ → Option (ℕ → W → Run W T) → Type 0
  AtMost n none = Unit
  AtMost n (some next) = (cumulative : ℕ) (w : W) → (next cumulative w).calls ≤ n

  after_sleep-calls :
      (n : ℕ) (next : W → Run W T) (r : Option GoError × W)
      → ((w : W) → (next w).calls ≤ n)
      → (after_sleep s next r).calls ≤ n
  unfolding after_sleep stop
  after_sleep-calls n next (some e, w) h = omega arith
  after_sleep-calls n next (none, w) h = h w

  pause-calls :
      (n attempt cumulative : ℕ) (e : GoError) (next : ℕ → W → Run W T) (d : ℕ × W)
      → AtMost n (some next)
      → (pause s next attempt e cumulative d).calls ≤ n
  unfolding pause reporting
  pause-calls n attempt cumulative e next (delay, w) h =
      after_sleep-calls n (next (cumulative + delay)) (s.sleep delay w) (h (cumulative + delay))

  on_failed_try-calls :
      (n attempt cumulative : ℕ) (b : Bool) (e : GoError) (next : Option (ℕ → W → Run W T)) (w : W)
      → AtMost n next
      → (on_failed_try s b next attempt e cumulative w).calls ≤ n
  unfolding on_failed_try again exhausted stop
  on_failed_try-calls n attempt cumulative true e none w h = omega arith
  on_failed_try-calls n attempt cumulative true e (some next) w h =
      pause-calls n attempt cumulative e next (s.calculate_delay attempt w) h
  on_failed_try-calls n attempt cumulative false e next w h = omega arith

  after_try-calls :
      (n attempt cumulative : ℕ) (next : Option (ℕ → W → Run W T)) (r : Tried T × W)
      → AtMost n next
      → (after_try s next attempt cumulative r).calls ≤ n
  unfolding after_try stop
  after_try-calls n attempt cumulative next (success t, w) h = omega arith
  after_try-calls n attempt cumulative next (failure e, w) h =
      on_failed_try-calls n attempt cumulative (s.is_retriable e) e next w h

  after_check-calls :
      (n attempt cumulative : ℕ) (next : Option (ℕ → W → Run W T)) (c : Option GoError) (w : W)
      → AtMost n next
      → (after_check s next attempt cumulative c w).calls ≤ suc n
  unfolding after_check with_call stop
  after_check-calls n attempt cumulative next (some e) w h = omega arith
  after_check-calls n attempt cumulative next none w h =
      omega (arith, after_try-calls n attempt cumulative next (s.call w) h)

  attempts-calls :
      (left attempt cumulative : ℕ) (w : W)
      → (attempts s left attempt cumulative w).calls ≤ suc left
  unfolding attempts
  attempts-calls zero attempt cumulative w =
      after_check-calls zero attempt cumulative none (s.context_error w) w tt
  attempts-calls (suc left) attempt cumulative w =
      after_check-calls (suc left) attempt cumulative _ (s.context_error w) w
        (λ c w'. attempts-calls left (suc attempt) c w')

  run_attempts-calls : (n : ℤ) (w : W) → (run_attempts s n w).calls ≤ allowed n
  unfolding run_attempts exhausted stop
  run_attempts-calls (pos zero) w = omega arith
  run_attempts-calls (negsuc n) w = omega arith
  run_attempts-calls (pos (suc left)) w = attempts-calls left 1 0 w

  -- Retry calls its function MaxAttempts times at most, and never if that is not positive.
  pub retry-calls : (w : W) → (retry s w).calls ≤ allowed s.max_attempts
  unfolding retry
  retry-calls w = run_attempts-calls s.max_attempts w

  -- Each call fails in a way that can be tried again, and the context does not end.
  abbrev pub KeepsFailing : Type 0
  KeepsFailing =
      ((w : W) → s.context_error w ≡ none)
      × ((delay : ℕ) (w : W) → (s.sleep delay w).0 ≡ none)
      × ((w : W) → (e : GoError) × ((s.call w).0 ≡ failure e) × (s.is_retriable e ≡ true))

  -- The world after the pause that follows a failed call.
  abbrev pub next_world : ℕ → W → W
  next_world attempt w = let d = s.calculate_delay attempt (s.call w).1 in (s.sleep d.0 d.1).1

  -- The world in which the last call is made, with `left` calls behind this one.
  abbrev pub last_world : ℕ → ℕ → W → W
  last_world zero attempt w = w
  last_world (suc left) attempt w = last_world left (suc attempt) (next_world attempt w)

  -- The delays between these calls.
  abbrev pub all_delays : ℕ → ℕ → W → ℕ
  all_delays zero attempt w = 0
  all_delays (suc left) attempt w =
      (s.calculate_delay attempt (s.call w).1).0
      + all_delays left (suc attempt) (next_world attempt w)

  -- All calls were made, and the RetryError has the error of the last one and the time slept.
  pub record GivesUp (left attempt cumulative : ℕ) (w : W) (r : Run W T) : Type 0 where
    pub all_calls : r.calls ≡ suc left
    pub ends_there : r.world ≡ (s.call (last_world left attempt w)).1
    pub last_error : GoError
    pub of_last_call : (s.call (last_world left attempt w)).0 ≡ failure last_error
    pub tells :
        r.answer ≡ gave_up (some last_error) s.max_attempts (cumulative + all_delays left attempt w)

  after_sleep-some {κ} :
      (P : Run W T → Type κ) (next : W → Run W T) (r : Option GoError × W)
      → r.0 ≡ none
      → P (next r.1)
      → P (after_sleep s next r)
  unfolding after_sleep
  after_sleep-some P next (some e, w) p h = absurd (cc p)
  after_sleep-some P next (none, w) p h = h

  -- What happens before the next call changes the number of calls and the reports.
  one_more :
      (left attempt cumulative : ℕ) (w : W) (x : Report) (r : Run W T)
      → (let d = s.calculate_delay attempt (s.call w).1 in
          GivesUp left (suc attempt) (cumulative + d.0) (next_world attempt w) r)
      → GivesUp (suc left) attempt cumulative w (with_call s (reporting s x r))
  unfolding with_call reporting
  one_more left attempt cumulative w x r g = record {
    all_calls = ap (λ n. suc n) g.all_calls;
    ends_there = g.ends_there;
    last_error = g.last_error;
    of_last_call = g.of_last_call;
    tells = g.tells ∙ ap (λ n. gave_up (some g.last_error) s.max_attempts n) (omega arith);
  }

  attempts-GivesUp :
      KeepsFailing
      → (left attempt cumulative : ℕ) (w : W)
      → GivesUp left attempt cumulative w (attempts s left attempt cumulative w)
  unfolding attempts after_check after_try on_failed_try again with_call exhausted stop pause
  attempts-GivesUp (c, d, f) zero attempt cumulative w =
      let (e, p, q) = f w in
      rw (c w) (
        rw p (
          rw q (record {
            all_calls = refl;
            ends_there = refl;
            last_error = e;
            of_last_call = p;
            tells = ap (λ n. gave_up (some e) s.max_attempts n) (omega arith);
          })))
  attempts-GivesUp (c, d, f) (suc left) attempt cumulative w =
      let (e, p, q) = f w in
      let (delay, w') = s.calculate_delay attempt (s.call w).1 in
      rw (c w) (
        rw p (
          rw q (
            one_more left attempt cumulative w (on_retry attempt e delay (cumulative + delay)) _ (
              after_sleep-some
                (λ (r : Run W T).
                  GivesUp left (suc attempt) (cumulative + delay) (next_world attempt w) r)
                (λ w''. attempts s left (suc attempt) (cumulative + delay) w'') (s.sleep delay w')
                (d delay w')
                (attempts-GivesUp (c, d, f) left (suc attempt) (cumulative + delay)
                  (s.sleep delay w').1)))))

  -- If the context does not end and every call fails with an error that can be tried again, and
  -- MaxAttempts is positive, Retry makes all MaxAttempts calls, each in the world that the pause
  -- behind the one before leaves, and returns a RetryError with the error of the last call and the
  -- sum of the delays between the calls.
  pub retry-GivesUp :
      KeepsFailing
      → (w : W) (left : ℕ) → s.max_attempts ≡ pos (suc left)
      → GivesUp left 1 0 w (retry s w)
  unfolding retry run_attempts
  retry-GivesUp k w left m =
      subst (λ n. GivesUp left 1 0 w (run_attempts s n w)) (sym m) (attempts-GivesUp k left 1 0 w)
