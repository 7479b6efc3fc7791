-- ===== src/Session/Serving.antt =====
-- The connection that a stream of RunStream in src/driver/run.go holds, and what goes back to the pool.
use gopher_cypher.Driver.Stream.Start.{send_run}
use gopher_cypher.Driver.Stream.Started.{send_run-Started, Started}
use gopher_cypher.Driver.Stream.State.{StreamError, Stream}
use gopher_cypher.Packstream.Value.{Fields}
use gopher_cypher.Session.Pooled.{needs_reauth, PooledConn}
use gopher_cypher.Session.Untouched.{put_back, ensure-alive, Untouched, PutsBack, found_dead}
use gopher_cypher.Session.Streaming.{
  stream_slot, open_stream, lost, not_streaming, streaming, with_stream, stream_on, after_send_run,
  Streamed, run_stream, used_slot,
}
use gopher_cypher.Common.{
  ℕ, List, [], ◌∷◌, ◌++◌, ◌&&◌, not, Bool, true, false, Option, none, some, ◌≡◌, refl, ◌∙◌, inl,
  inr, Bool-cases,
}
use gopher_cypher.Messaging.Connection.{ok, err, stuck, Outcome}
use gopher_cypher.Session.Running.{
  original, unending, bolt_handshake, replaced, used, aliased, refused, set_used, is_alive, Slot,
  Pool, Circumstances, ensured, Held, Settings, after_bolt, Ensured, ensure_authenticated, PoolCall,
  ensure_held, after_liveness, got,
}
use gopher_cypher.Driver.Stream.Pull.{close, put_error}

-- The connection that ensureAuthenticated returned is `id`.
abbrev Uses : ℕ → Ensured → Type 0
Uses id (ensured held pool) = (used_slot held).id ≡ id
Uses id (refused why held pool) = Unit
Uses id unending = Unit

used-set_used :
    (pc : PooledConn) (held : Held) → (used_slot (set_used pc held)).id ≡ (used_slot held).id
used-set_used pc (aliased s) = refl
used-set_used pc (replaced s r) = refl

after_bolt-Uses :
    (later : ℕ) (held : Held) (pool : Pool) (o : Outcome (ℕ × ℕ))
    → Uses (used_slot held).id (after_bolt later held pool o)
unfolding after_bolt
after_bolt-Uses later held pool (ok (major, minor) conn) = used-set_used _ held
after_bolt-Uses later held pool (err e conn) = tt
after_bolt-Uses later held pool stuck = tt

ensure_held-Uses :
    (settings : Settings) (c : Circumstances) (held : Held) (pool : Pool)
    → Uses (used_slot held).id (ensure_held settings c held pool)
unfolding ensure_held
ensure_held-Uses settings c held pool =
    elim (Bool-cases (needs_reauth settings.max_idle_time c.now (used held))) [
      | inl e ↦ rw e (after_bolt-Uses c.later held pool (bolt_handshake settings (used held).conn))
      | inr e ↦ rw e (used-set_used _ held)
    ]

after_liveness-Uses :
    (settings : Settings) (c : Circumstances) (slot : Slot) (pool : Pool) (r : Bool × PooledConn)
    → not r.0 ≡ false
    → Uses slot.id (after_liveness settings c slot pool r)
unfolding after_liveness
after_liveness-Uses settings c slot pool (true, pc) h =
    ensure_held-Uses settings c (aliased (record slot { pc = pc })) pool
after_liveness-Uses settings c slot pool (false, pc) h = absurd (cc h)

ensure-Uses :
    (settings : Settings) (c : Circumstances) (slot : Slot) (pool : Pool)
    → found_dead settings c slot ≡ false
    → Uses slot.id (ensure_authenticated settings c slot pool)
unfolding ensure_authenticated found_dead
ensure-Uses settings c slot pool h =
    elim (Bool-cases (settings.enable_liveness_check && slot.pc.authenticated)) [
      | inl e ↦
          rw e (after_liveness-Uses settings c slot pool (is_alive c.arrived slot.pc) (rw e at h))
      | inr e ↦ rw e (ensure_held-Uses settings c (aliased slot) pool)
    ]

-- RunStream returns: with an open stream that holds the connection `id`, and the pool was called no
-- more than before; or with an error, and it put `id` back with an error.
abbrev pub Streams : ℕ → List PoolCall → Streamed → Type 0
Streams id before (streaming held sc pool) =
    ((used_slot held).id ≡ id)
    × (((sc.closed ≡ false) × (sc.returned ≡ [])) × (pool.calls ≡ before))
Streams id before (not_streaming why pool) = PutsBack id before true pool
Streams id before lost = ⊥

after_send_run-Streams :
    (id : ℕ) (before : List PoolCall) (held : Held) (pool : Pool) (sc : Stream)
    (r : Option (Option StreamError × Stream))
    → (used_slot held).id ≡ id
    → pool.calls ≡ before
    → sc.closed ≡ false
    → sc.returned ≡ []
    → Started sc r
    → Streams id before (after_send_run held pool r)
unfolding after_send_run close put_error
after_send_run-Streams id before held pool sc none u f c n s = s
after_send_run-Streams id before held pool sc (some (none, sc')) u f c n (d, m) =
    (u, ((d ∙ c, m ∙ n), f))
after_send_run-Streams id before held pool sc (some (some e, sc')) u f c n ((d, m), l) =
    rw (d ∙ c, l, m ∙ n) (put_back (stream_slot held sc') id before true pool u f)

stream_on-Streams :
    (query : List ℕ) (parameters metadata : Fields) (start_time id : ℕ) (before : List PoolCall)
    (o : Ensured)
    → Untouched id before o
    → Uses id o
    → Streams id before (stream_on query parameters metadata start_time o)
unfolding stream_on open_stream
stream_on-Streams query parameters metadata start_time id before (ensured held pool) (e, f) u =
    after_send_run-Streams id before held pool (open_stream start_time (used held))
      (send_run query parameters metadata (open_stream start_time (used held))) u f refl refl
      (send_run-Started query parameters metadata (open_stream start_time (used held)))
stream_on-Streams query parameters metadata start_time id before (refused why held pool) (e, f) u =
    put_back (original held) id before true pool e f
stream_on-Streams query parameters metadata start_time id before unending h u = h

-- If the pool has a connection, and the liveness check does not find it dead, RunStream returns,
-- whatever the connection does: either with an open stream that holds this connection, and after
-- the Get it has not called the pool; or with an error, and after the Get it has called the pool
-- once, to put this connection back with an error.
pub run_stream-Streams :
    (settings : Settings) (c : Circumstances) (query : List ℕ) (parameters metadata : Fields)
    (slot : Slot) (answers : List (Option Slot)) (calls : List PoolCall)
    → found_dead settings c slot ≡ false
    → Streams slot.id (calls ++ (got slot.id ∷ [])) (
        run_stream settings c query parameters metadata
          (record { answers = some slot ∷ answers; calls = calls }))
unfolding run_stream with_stream
run_stream-Streams settings c query parameters metadata slot answers calls h =
    let pool : Pool = record { answers = answers; calls = calls ++ (got slot.id ∷ []) } in
    stream_on-Streams query parameters metadata c.now slot.id (calls ++ (got slot.id ∷ []))
      (ensure_authenticated settings c slot pool) (ensure-alive settings c slot pool h)
      (ensure-Uses settings c slot pool h)
