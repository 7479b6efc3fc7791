-- ===== src/Retry/Errors.antt =====
-- Which errors are tried again: IsRetriable of src/driver/retry.go and of the DatabaseError in
-- src/driver/result.go.
use gopher_cypher.Common.{◌==◌, if◌then◌else◌, ℕ, List, [], ◌∷◌, Bool, true, false, ◌||◌}
use gopher_cypher.Common.Text.{codes}
use gopher_cypher.Retry.Text.{contains}

-- An error by what errors.As and errors.Is find in it: a DatabaseError with its code and its
-- message, the end of a context, or another error with its text.
pub data GoError : Type 0 where
  database : List ℕ → List ℕ → GoError
  canceled deadline_exceeded : GoError
  plain : List ℕ → GoError

-- strings.Contains
starts_with : List ℕ → List ℕ → Bool
starts_with [] s = true
starts_with (b ∷ sub) [] = false
starts_with (b ∷ sub) (a ∷ s) = let rest = starts_with sub s in if a == b then rest else false

string_contains : List ℕ → List ℕ → Bool
unfolding starts_with
string_contains [] sub = starts_with sub []
string_contains (a ∷ s) sub =
    let later = string_contains s sub in if starts_with sub (a ∷ s) then true else later

-- strings.ToLower, on any Unicode text, is a parameter.
module _ (to_lower : List ℕ → List ℕ) where
  unfoldable pub is_transient : List ℕ → List ℕ → Bool
  unfolding string_contains
  is_transient error_code error_message =
      let code = to_lower error_code in
      let msg = to_lower error_message in
      string_contains code (codes "transient")
      || string_contains msg (codes "timeout")
      || string_contains msg (codes "unavailable")
      || string_contains msg (codes "temporarily")

  unfoldable pub is_cluster_error : List ℕ → List ℕ → Bool
  unfolding string_contains
  is_cluster_error error_code error_message =
      let code = to_lower error_code in
      let msg = to_lower error_message in
      string_contains code (codes "notaleader")
      || string_contains code (codes "readonly")
      || string_contains msg (codes "not a leader")
      || string_contains msg (codes "read-only")
      || string_contains msg (codes "read only")

  unfoldable pub is_conflict : List ℕ → List ℕ → Bool
  unfolding string_contains
  is_conflict error_code error_message =
      let code = to_lower error_code in
      let msg = to_lower error_message in
      string_contains code (codes "deadlock")
      || string_contains code (codes "conflict")
      || string_contains msg (codes "deadlock")
      || string_contains msg (codes "conflicting transactions")
      || string_contains msg (codes "lock timeout")
      || string_contains msg (codes "serialization failure")

  unfoldable pub is_auth_error : List ℕ → List ℕ → Bool
  unfolding string_contains
  is_auth_error error_code error_message =
      let code = to_lower error_code in
      let msg = to_lower error_message in
      string_contains code (codes "security")
      || string_contains code (codes "auth")
      || string_contains msg (codes "authentication")
      || string_contains msg (codes "unauthorized")

  -- IsRetriable on an error that is not nil.
  unfoldable pub is_retriable : GoError → Bool
  unfolding is_transient is_cluster_error is_conflict
  is_retriable (database code message) =
      is_transient code message || is_cluster_error code message || is_conflict code message
  is_retriable canceled = false
  is_retriable deadline_exceeded = false
  is_retriable (plain text) = contains text (
      codes "connection refused"
      ∷ codes "connection reset"
      ∷ codes "broken pipe"
      ∷ codes "EOF"
      ∷ codes "timeout"
      ∷ codes "temporary failure"
      ∷ [])
