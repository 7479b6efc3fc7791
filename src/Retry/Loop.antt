-- ===== src/Retry/Loop.antt =====
-- Retry of src/driver/retry.go.
use gopher_cypher.Common.{ℕ, zero, suc, ◌+◌, List, [], ◌∷◌, Bool, true, false, Option, none, some}
use gopher_cypher.Common.Int.{ℤ, pos, negsuc}
use gopher_cypher.Retry.Errors.{GoError}

-- What fn returns.
pub data Tried (T : Type 0) : Type 0 where
  success : T → Tried T
  failure : GoError → Tried T

-- What Retry returns: the result of fn, an error of the context or of fn as it is, or a
-- RetryError with the last error, MaxAttempts and the time slept.
pub data Retried (T : Type 0) : Type 0 where
  returned : T → Retried T
  failed : GoError → Retried T
  gave_up : Option GoError → ℤ → ℕ → Retried T

-- The calls of the policy's callbacks.
pub data Report : Type 0 where
  on_retry : ℕ → GoError → ℕ → ℕ → Report
  on_success : ℕ → Report
  on_failure : Option GoError → ℤ → Report

-- A run: what it returns, the callbacks in order, how often fn was called, and the world after it.
pub record Run (W T : Type 0) : Type 0 where
  pub answer : Retried T
  pub reports : List Report
  pub calls : ℕ
  pub world : W

-- What a run of Retry depends on. The world holds the clock, the context, the random numbers and
-- the state of fn: ctx.Err() at a check, fn, IsRetriable, CalculateDelay, and the sleep with the
-- error of the context if that ends first. And the policy's MaxAttempts.
pub record Setting (W T : Type 0) : Type 0 where
  pub context_error : W → Option GoError
  pub call : W → Tried T × W
  pub is_retriable : GoError → Bool
  pub calculate_delay : ℕ → W → ℕ × W
  pub sleep : ℕ → W → Option GoError × W
  pub max_attempts : ℤ

module _ {W T : Type 0} (s : Setting W T) where
  unfoldable pub stop : Retried T → List Report → W → Run W T
  stop answer reports w = record { answer = answer; reports = reports; calls = 0; world = w }

  unfoldable pub with_call : Run W T → Run W T
  with_call r = record r { calls = suc r.calls }

  unfoldable pub reporting : Report → Run W T → Run W T
  reporting x r = record r { reports = x ∷ r.reports }

  unfoldable pub exhausted : Option GoError → ℕ → W → Run W T
  unfolding stop
  exhausted last_err cumulative w =
      stop (gave_up last_err s.max_attempts cumulative) (on_failure last_err s.max_attempts ∷ []) w

  unfoldable pub after_sleep : (W → Run W T) → Option GoError × W → Run W T
  unfolding stop
  after_sleep next (some e, w) = stop (failed e) [] w
  after_sleep next (none, w) = next w

  -- The delay before the next attempt, which gets the time slept so far.
  unfoldable pub pause : (ℕ → W → Run W T) → ℕ → GoError → ℕ → ℕ × W → Run W T
  unfolding after_sleep reporting
  pause next attempt e cumulative (delay, w) =
      reporting (on_retry attempt e delay (cumulative + delay))
        (after_sleep (next (cumulative + delay)) (s.sleep delay w))

  -- A failure that can be tried again; without further attempts the loop ends.
  unfoldable pub again : Option (ℕ → W → Run W T) → ℕ → GoError → ℕ → W → Run W T
  unfolding pause exhausted
  again none attempt e cumulative w = exhausted (some e) cumulative w
  again (some next) attempt e cumulative w =
      pause next attempt e cumulative (s.calculate_delay attempt w)

  unfoldable pub on_failed_try : Bool → Option (ℕ → W → Run W T) → ℕ → GoError → ℕ → W → Run W T
  unfolding again stop
  on_failed_try true next attempt e cumulative w = again next attempt e cumulative w
  on_failed_try false next attempt e cumulative w =
      stop (failed e) (on_failure (some e) (pos attempt) ∷ []) w

  unfoldable pub after_try : Option (ℕ → W → Run W T) → ℕ → ℕ → Tried T × W → Run W T
  unfolding on_failed_try stop
  after_try next attempt cumulative (success t, w) = stop (returned t) (on_success attempt ∷ []) w
  after_try next attempt cumulative (failure e, w) =
      on_failed_try (s.is_retriable e) next attempt e cumulative w

  unfoldable pub after_check : Option (ℕ → W → Run W T) → ℕ → ℕ → Option GoError → W → Run W T
  unfolding after_try with_call stop
  after_check next attempt cumulative (some e) w = stop (failed e) [] w
  after_check next attempt cumulative none w =
      with_call (after_try next attempt cumulative (s.call w))

  -- The round of the loop with `left` further attempts to come.
  unfoldable pub attempts : ℕ → ℕ → ℕ → W → Run W T
  unfolding after_check
  attempts zero attempt cumulative w = after_check none attempt cumulative (s.context_error w) w
  attempts (suc left) attempt cumulative w =
      after_check (some (λ c w'. attempts left (suc attempt) c w')) attempt cumulative
        (s.context_error w) w

  unfoldable pub run_attempts : ℤ → W → Run W T
  unfolding attempts exhausted
  run_attempts (pos zero) w = exhausted none 0 w
  run_attempts (negsuc n) w = exhausted none 0 w
  run_attempts (pos (suc left)) w = attempts left 1 0 w

  unfoldable pub retry : W → Run W T
  unfolding run_attempts
  retry w = run_attempts s.max_attempts w
