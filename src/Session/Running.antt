-- ===== src/Session/Running.antt =====
-- src/driver/run.go: how a query gets its connection from the pool and gives it back. The pool is a
-- library: what its Get answers is given, and the calls of Get and Put are recorded.
use gopher_cypher.Common.{
  ℕ, List, [], ◌∷◌, ◌++◌, ◌&&◌, Bool, true, false, Option, none, some, if◌then◌else◌,
}
use gopher_cypher.Common.Int.{ℤ}
use gopher_cypher.Packstream.Value.{Value, Fields}
use gopher_cypher.Messaging.Connection.{
  Ending, closes, stalls, Error, Outcome, ok, err, stuck, Action, ◌>>=◌, ◌>>◌, pure,
}
use gopher_cypher.Messaging.Message.{new_run, signature, message_fields}
use gopher_cypher.Messaging.Exchange.{Table, send_request_data}
use gopher_cypher.Session.Handshake.{check_version, send_hello, authenticate}
use gopher_cypher.Session.Pooled.{PooledConn, needs_reauth, touch, mark_authenticated, mark_dirty}

-- The read of one byte within a millisecond: `arrived` says whether what the peer sends next, or its
-- closing, has come by then.
one_byte : Bool → List ℕ → Ending → PooledConn → Bool × PooledConn
one_byte false input ending pc = (true, pc)
one_byte true (b ∷ rest) ending pc = (true, record pc { conn = record pc.conn { incoming = rest } })
one_byte true [] closes pc = (false, pc)
one_byte true [] stalls pc = (true, pc)

-- isAlive
unfoldable pub is_alive : Bool → PooledConn → Bool × PooledConn
unfolding one_byte
is_alive arrived pc =
    if pc.conn.can_set_deadline
    then one_byte arrived pc.conn.incoming pc.conn.ending pc
    else (false, pc)

-- A connection of the pool, by a number.
pub record Slot : Type 0 where
  pub id : ℕ
  pub pc : PooledConn

pub data PoolCall : Type 0 where
  got : ℕ → PoolCall
  given_back : Slot → Bool → PoolCall
  given_back_nothing : PoolCall

-- What further calls of Get answer, none for an error; and the calls so far. `given_back s true` is a
-- Put with an error, after which the pool closes the connection.
pub record Pool : Type 0 where
  pub answers : List (Option Slot)
  pub calls : List PoolCall

abbrev pub recorded : PoolCall → Pool → Pool
recorded call pool = record pool { calls = pool.calls ++ (call ∷ []) }

-- d.netPool.Put(conn, err)
abbrev pub put_conn : Slot → Bool → Pool → Pool
put_conn slot failed pool = recorded (given_back slot failed) pool

-- d.netPool.Get()
abbrev pub get_conn : List (Option Slot) → Pool → Option Slot × Pool
get_conn [] pool = (none, pool)
get_conn (none ∷ answers) pool = (none, record pool { answers = answers })
get_conn (some slot ∷ answers) pool =
    (some slot, recorded (got slot.id) (record pool { answers = answers }))

-- The connection that the caller has as `conn`, and the one that ensureAuthenticated has in `pc`:
-- the same object, or two.
pub data Held : Type 0 where
  aliased : Slot → Held
  replaced : Slot → Slot → Held

abbrev pub original : Held → Slot
original (aliased s) = s
original (replaced s r) = s

abbrev pub used : Held → PooledConn
used (aliased s) = s.pc
used (replaced s r) = r.pc

abbrev pub set_used : PooledConn → Held → Held
set_used pc (aliased s) = aliased (record s { pc = pc })
set_used pc (replaced s r) = replaced s (record r { pc = pc })

pub record Settings : Type 0 where
  pub max_idle_time : ℤ
  pub enable_liveness_check : Bool
  pub hello_metadata : Fields
  pub username : List ℕ
  pub password : List ℕ

-- What a call meets: whether something has arrived at the connection that it gets, and the times at
-- which it begins and ends the handshake.
pub record Circumstances : Type 0 where
  pub arrived : Bool
  pub now : ℕ
  pub later : ℕ

pub data Failure : Type 0 where
  no_connection : Failure
  on_connection : Error → Failure

-- How ensureAuthenticated ends; `unending` is no Go outcome: out of fuel.
pub data Ensured : Type 0 where
  ensured : Held → Pool → Ensured
  refused : Failure → Held → Pool → Ensured
  unending : Ensured

unfoldable pub bolt_handshake : Settings → Action (ℕ × ℕ)
bolt_handshake settings = do
  version ← check_version
  send_hello settings.hello_metadata
  authenticate settings.username settings.password
  pure version

unfoldable pub after_bolt : ℕ → Held → Pool → Outcome (ℕ × ℕ) → Ensured
after_bolt later held pool (ok (major, minor) conn) =
    ensured
      (set_used (mark_authenticated later major minor (record (used held) { conn = conn })) held)
      pool
after_bolt later held pool (err e conn) =
    refused (on_connection e) (set_used (record (used held) { conn = conn }) held) pool
after_bolt later held pool stuck = unending

-- ensureAuthenticated from the test of needsReauth on.
unfoldable pub ensure_held : Settings → Circumstances → Held → Pool → Ensured
unfolding after_bolt
ensure_held settings c held pool =
    let shaken = after_bolt c.later held pool (bolt_handshake settings (used held).conn) in
    if needs_reauth settings.max_idle_time c.now (used held)
    then shaken
    else ensured (set_used (touch c.now (used held)) held) pool

unfoldable pub after_replacement : Settings → Circumstances → Slot → Option Slot × Pool → Ensured
unfolding ensure_held
after_replacement settings c dead (none, pool) = refused no_connection (aliased dead) pool
after_replacement settings c dead (some fresh, pool) =
    ensure_held settings c (replaced dead fresh) pool

unfoldable pub after_liveness : Settings → Circumstances → Slot → Pool → Bool × PooledConn → Ensured
unfolding after_replacement
after_liveness settings c slot pool (true, pc) =
    ensure_held settings c (aliased (record slot { pc = pc })) pool
after_liveness settings c slot pool (false, pc) =
    let dead = record slot { pc = pc } in
    after_replacement settings c dead (get_conn pool.answers (put_conn dead true pool))

unfoldable pub ensure_authenticated : Settings → Circumstances → Slot → Pool → Ensured
unfolding after_liveness is_alive
ensure_authenticated settings c slot pool =
    let checked = after_liveness settings c slot pool (is_alive c.arrived slot.pc) in
    if settings.enable_liveness_check && slot.pc.authenticated
    then checked
    else ensure_held settings c (aliased slot) pool

-- How a call of the driver ends, and the pool after it.
pub data Ran {ℓ} (A : Type ℓ) : Type ℓ where
  answered : A → Pool → Ran A
  failed : Failure → Pool → Ran A
  endless : Ran A

unfoldable pub after_query {ℓ} : {A : Type ℓ} → Held → Pool → Outcome A → Ran A
after_query held pool (ok table conn) =
    answered table
      (put_conn (original (set_used (record (used held) { conn = conn }) held)) false pool)
after_query held pool (err e conn) = failed (on_connection e) (
    put_conn (original (set_used (mark_dirty (record (used held) { conn = conn })) held)) true pool)
after_query held pool stuck = endless

abbrev pub after_ensured {ℓ} : {A : Type ℓ} → Action A → Ensured → Ran A
after_ensured query (ensured held pool) = after_query held pool (query (used held).conn)
after_ensured query (refused why held pool) = failed why (put_conn (original held) true pool)
after_ensured query unending = endless

abbrev pub with_conn {ℓ} :
    {A : Type ℓ} → Settings → Circumstances → Action A → Option Slot × Pool → Ran A
with_conn settings c query (none, pool) = failed no_connection pool
with_conn settings c query (some slot, pool) =
    after_ensured query (ensure_authenticated settings c slot pool)

-- How fmt.Sprintf prints a column name that is no string is a parameter.
module _ (sprint : Value → List ℕ) where
  -- RunWithContext, without the logging and tracing around it.
  unfoldable pub run_with_context :
      Settings → Circumstances → List ℕ → Fields → Fields → Pool → Ran Table
  unfolding ensure_authenticated after_query
  run_with_context settings c query parameters metadata pool =
      let m = new_run query parameters metadata in
      with_conn settings c (send_request_data sprint (signature m) (message_fields m))
        (get_conn pool.answers pool)

abbrev pub after_ping : Ensured → Ran (Unit {0})
after_ping (ensured held pool) = answered tt (put_conn (original held) false pool)
after_ping (refused why held pool) = failed why (put_conn (original held) true pool)
after_ping unending = endless

abbrev pub ping_conn : Settings → Circumstances → Option Slot × Pool → Ran (Unit {0})
ping_conn settings c (none, pool) = failed no_connection pool
ping_conn settings c (some slot, pool) = after_ping (ensure_authenticated settings c slot pool)

-- src/driver/ping.go
unfoldable pub ping : Settings → Circumstances → Pool → Ran (Unit {0})
unfolding ensure_authenticated
ping settings c pool = ping_conn settings c (get_conn pool.answers pool)

-- Close of src/driver/driver.go, for the answers that Get gives while the pool is not empty.
unfoldable pub close_idle : List (Option Slot) → Pool → Pool
close_idle [] pool = pool
close_idle (none ∷ answers) pool = record pool { answers = answers }
close_idle (some slot ∷ answers) pool =
    close_idle answers
      (put_conn slot true (recorded (got slot.id) (record pool { answers = answers })))
