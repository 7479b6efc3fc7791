-- ===== src/Retry/Runs.antt =====
-- Concrete runs of Retry and of the search for words.
use gopher_cypher.Common.{◌+◌, ℕ, List, ◌≡◌, ◌≤◌, ◌↔◌, refl, true, none}
use gopher_cypher.Common.Int.{pos}
use gopher_cypher.Common.Text.{codes}
use gopher_cypher.Retry.Text.{
  matches_here, contains, contains_word, Occurs, contains_word-Occurs_iff,
}
use gopher_cypher.Retry.Errors.{plain, is_retriable}
use gopher_cypher.Retry.Loop.{Setting, failure, retry}
use gopher_cypher.Retry.Attempts.{GivesUp, KeepsFailing, retry-calls, retry-GivesUp}

-- The world counts the calls, and each of them meets a timeout.
abbrev timeouts : Setting ℕ (List ℕ)
timeouts = record {
  context_error = λ w. none;
  call = λ w. (failure (plain (codes "i/o timeout")), w + 1);
  is_retriable = λ e. is_retriable (λ s. s) e;
  calculate_delay = λ n w. (100, w);
  sleep = λ d w. (none, w);
  max_attempts = pos 3;
}

retry-calls_example : (retry timeouts 0).calls ≤ 3
retry-calls_example = retry-calls timeouts 0

timeout-is_retriable : is_retriable (λ s. s) (plain (codes "i/o timeout")) ≡ true
unfolding is_retriable contains contains_word matches_here
timeout-is_retriable = refl

timeouts-KeepsFailing : KeepsFailing timeouts
timeouts-KeepsFailing =
    ((λ w. refl), (λ d w. refl), λ w. (plain (codes "i/o timeout"), refl, timeout-is_retriable))

retry-GivesUp_example : GivesUp timeouts 2 1 0 0 (retry timeouts 0)
retry-GivesUp_example = retry-GivesUp timeouts timeouts-KeepsFailing 0 2 refl

contains_word-Occurs_iff_example :
    (contains_word (codes "EOF") (codes "unexpected eof") ≡ true)
    ↔ Occurs (codes "EOF") (codes "unexpected eof")
contains_word-Occurs_iff_example =
    contains_word-Occurs_iff b'E' (codes "OF") (codes "unexpected eof")
