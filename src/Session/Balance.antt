-- ===== src/Session/Balance.antt =====
-- Which connections src/driver/run.go and src/driver/ping.go give back to the pool.
use gopher_cypher.Session.Finishes.{finishes, Finishes}
use gopher_cypher.Common.{ℕ, List, [], ◌∷◌, ◌++◌, true, false, Option, some, ◌≡◌}
use gopher_cypher.Packstream.Value.{Value, Fields}
use gopher_cypher.Messaging.Connection.{Conn}
use gopher_cypher.Messaging.Message.{Message, new_run, signature, message_fields}
use gopher_cypher.Messaging.Exchange.{send_request_data}
use gopher_cypher.Messaging.Termination.{send_request_data_total}
use gopher_cypher.Session.Running.{
  ping, after_ping, Slot, PoolCall, got, given_back, Pool, original, Settings, Circumstances,
  Ensured, ensured, refused, unending, ensure_authenticated, run_with_context,
}
-- The call has put the connection `id` back, and nothing else, after the calls before; `flag` says
use gopher_cypher.Session.Untouched.{
  ensure-dead, checked_conn, after_ensured-Ends, put_back, ensure-alive, found_dead, Untouched,
  PutsBack, Ends,
}

module _ (sprint : Value → List ℕ) where
  query-Finishes :
      (m : Message) (conn : Conn)
      → Finishes (send_request_data sprint (signature m) (message_fields m) conn)
  query-Finishes m conn =
      finishes (send_request_data sprint (signature m) (message_fields m) conn)
        (send_request_data_total sprint (signature m) (message_fields m) conn)

  -- If the pool has a connection, and the liveness check does not find it dead, RunWithContext
  -- returns, whatever the connection does; besides the Get it has called the pool once, to put this
  -- connection back, with an error exactly if it failed.
  pub run_with_context-PutsBack :
      (settings : Settings) (c : Circumstances) (query : List ℕ) (parameters metadata : Fields)
      (slot : Slot) (answers : List (Option Slot)) (calls : List PoolCall)
      → found_dead settings c slot ≡ false
      → Ends (PutsBack slot.id (calls ++ (got slot.id ∷ []))) (
          run_with_context sprint settings c query parameters metadata
            (record { answers = some slot ∷ answers; calls = calls }))
  unfolding run_with_context
  run_with_context-PutsBack settings c query parameters metadata slot answers calls h =
      let m : Message = new_run query parameters metadata in
      let pool : Pool = record { answers = answers; calls = calls ++ (got slot.id ∷ []) } in
      after_ensured-Ends (send_request_data sprint (signature m) (message_fields m))
        (ensure_authenticated settings c slot pool) slot.id (calls ++ (got slot.id ∷ []))
        (query-Finishes m) (ensure-alive settings c slot pool h)

  -- If the liveness check finds the connection dead, and the pool has another, RunWithContext
  -- returns, and puts the dead connection back twice, once before and once after it got the other;
  -- the other is not put back.
  pub run_with_context_leaks :
      (settings : Settings) (c : Circumstances) (query : List ℕ) (parameters metadata : Fields)
      (slot fresh : Slot) (answers : List (Option Slot)) (calls : List PoolCall)
      → found_dead settings c slot ≡ true
      → Ends
          (PutsBack slot.id (
            ((calls ++ (got slot.id ∷ []))
              ++ (given_back (record slot { pc = checked_conn c slot }) true ∷ []))
            ++ (got fresh.id ∷ [])))
          (run_with_context sprint settings c query parameters metadata
            (record { answers = some slot ∷ some fresh ∷ answers; calls = calls }))
  unfolding run_with_context
  run_with_context_leaks settings c query parameters metadata slot fresh answers calls h =
      let m : Message = new_run query parameters metadata in
      after_ensured-Ends (send_request_data sprint (signature m) (message_fields m)) _ slot.id _
        (query-Finishes m)
        (ensure-dead settings c slot fresh answers (calls ++ (got slot.id ∷ [])) h)

after_ping-Ends :
    (o : Ensured) (id : ℕ) (before : List PoolCall)
    → Untouched id before o
    → Ends (PutsBack id before) (after_ping o)
after_ping-Ends (ensured held pool) id before (e, f) =
    put_back (original held) id before false pool e f
after_ping-Ends (refused why held pool) id before (e, f) =
    put_back (original held) id before true pool e f
after_ping-Ends unending id before u = u

pub ping-PutsBack :
    (settings : Settings) (c : Circumstances) (slot : Slot) (answers : List (Option Slot))
    (calls : List PoolCall)
    → found_dead settings c slot ≡ false
    → Ends
        (PutsBack slot.id (calls ++ (got slot.id ∷ [])))
        (ping settings c (record { answers = some slot ∷ answers; calls = calls }))
unfolding ping
ping-PutsBack settings c slot answers calls h =
    after_ping-Ends _ slot.id (calls ++ (got slot.id ∷ [])) (
      ensure-alive settings c slot
        (record { answers = answers; calls = calls ++ (got slot.id ∷ []) }) h)
