-- ===== src/Session/Runs.antt =====
-- Concrete runs of the version check and of pooled connections.
use gopher_cypher.Session.Streaming.{run_stream}
use gopher_cypher.Session.Serving.{run_stream-Streams, Streams}
use gopher_cypher.Session.Running.{
  Pool, run_with_context, given_back, got, is_alive, Settings, Circumstances, Slot,
}
use gopher_cypher.Session.Balance.{run_with_context_leaks, run_with_context-PutsBack}
use gopher_cypher.Session.Untouched.{checked_conn, PutsBack, found_dead, Ends}
use gopher_cypher.Common.Int.{pos}
use gopher_cypher.Session.Pooled.{new_pooled_conn, PooledConn}
use gopher_cypher.Common.{false, some, ℕ, List, ◌≡◌, ◌↔◌, refl, arith, true, [], ◌∷◌, ◌++◌}
use gopher_cypher.Messaging.Connection.{Conn, closes, ok}
use gopher_cypher.Common.Text.{codes}
use gopher_cypher.Packstream.Value.{Value, no_fields}
use gopher_cypher.Session.Handshake.{magic, check_version}
use gopher_cypher.Session.Versions.{IsOffered, check_version-IsOffered_iff}

abbrev answering : List ℕ → Conn
answering answer = record {
  incoming = answer;
  outgoing = [];
  writes_left = 3;
  ending = closes;
  can_set_deadline = true;
}

check_version-IsOffered_iff_example :
    (check_version (answering (0 ∷ 0 ∷ 8 ∷ 5 ∷ []))
      ≡ ok
          (5, 8)
          (record (answering (0 ∷ 0 ∷ 8 ∷ 5 ∷ [])) {
            incoming = [];
            outgoing = [] ++ magic;
            writes_left = 2;
          }))
    ↔ IsOffered 5 8
check_version-IsOffered_iff_example =
    check_version-IsOffered_iff (answering (0 ∷ 0 ∷ 8 ∷ 5 ∷ [])) 0 0 8 5 [] refl (omega arith) refl

abbrev unused : PooledConn
unused = new_pooled_conn 5 (answering [])

abbrev settings : Settings
settings = record {
  max_idle_time = pos 60;
  enable_liveness_check = true;
  hello_metadata = no_fields;
  username = codes "ann";
  password = codes "secret";
}

-- A connection that was used and that the peer has closed; and a new one.
abbrev closed_slot : Slot
closed_slot = record { id = 1; pc = record unused { authenticated = true; last_used = some 6 } }

abbrev fresh_slot : Slot
fresh_slot = record { id = 2; pc = unused }

abbrev no_pool : Pool
no_pool = record { answers = []; calls = [] }

abbrev nothing_yet : Circumstances
nothing_yet = record { arrived = false; now = 7; later = 9 }

abbrev closing_arrived : Circumstances
closing_arrived = record { arrived = true; now = 7; later = 9 }

nothing_found : found_dead settings nothing_yet closed_slot ≡ false
unfolding found_dead is_alive new_pooled_conn
nothing_found = refl

death_found : found_dead settings closing_arrived closed_slot ≡ true
unfolding found_dead is_alive new_pooled_conn
death_found = refl

no_name : Value → List ℕ
no_name v = []

run_with_context-PutsBack_example : Ends (PutsBack 1 ([] ++ (got 1 ∷ []))) (
    run_with_context no_name settings nothing_yet
      (codes "RETURN 1")
      no_fields
      no_fields
      (record { answers = some closed_slot ∷ []; calls = [] }))
run_with_context-PutsBack_example =
    run_with_context-PutsBack no_name settings nothing_yet (codes "RETURN 1") no_fields no_fields
      closed_slot [] [] nothing_found

run_with_context_leaks_example :
    Ends
      (PutsBack 1 (
        (([] ++ (got 1 ∷ []))
          ++ (given_back (record closed_slot { pc = checked_conn closing_arrived closed_slot }) true
              ∷ []))
        ++ (got 2 ∷ [])))
      (run_with_context no_name settings closing_arrived
        (codes "RETURN 1")
        no_fields
        no_fields
        (record { answers = some closed_slot ∷ some fresh_slot ∷ []; calls = [] }))
run_with_context_leaks_example =
    run_with_context_leaks no_name settings closing_arrived (codes "RETURN 1") no_fields no_fields
      closed_slot fresh_slot [] [] death_found

run_stream-Streams_example : Streams 1 ([] ++ (got 1 ∷ [])) (
    run_stream settings nothing_yet
      (codes "RETURN 1")
      no_fields
      no_fields
      (record { answers = some closed_slot ∷ []; calls = [] }))
run_stream-Streams_example =
    run_stream-Streams settings nothing_yet (codes "RETURN 1") no_fields no_fields closed_slot [] []
      nothing_found
