-- ===== src/Session/Reuse.antt =====
-- When ensureAuthenticated of src/driver/run.go hands out a connection without a handshake.
use gopher_cypher.Session.Running.{
  unending, bolt_handshake, refused, used, ensured, Circumstances, Settings, Ensured,
}
use gopher_cypher.Common.{zero, suc, ℕ, ◌+◌, ◌≤◌, ◌≡◌, true, Option, none, some, ◌⊎◌}
use gopher_cypher.Common.Int.{ℤ, pos, negsuc}
use gopher_cypher.Session.Pooled.{PooledConn, touch, mark_authenticated}
use gopher_cypher.Messaging.Connection.{Conn, ok}

-- There is no limit, or the last use was `limit` ago at most.
abbrev pub UsedWithin : ℤ → ℕ → Option ℕ → Type 0
UsedWithin (negsuc n) now last = Unit
UsedWithin (pos zero) now last = Unit
UsedWithin (pos (suc limit)) now none = ⊥
UsedWithin (pos (suc limit)) now (some t) = now ≤ t + suc limit

-- Authenticated, and used lately.
abbrev pub IsFresh : ℤ → ℕ → PooledConn → Type 0
IsFresh max_idle_time now pc = (pc.authenticated ≡ true) × UsedWithin max_idle_time now pc.last_used

-- The connection after a successful handshake.
abbrev pub Shaken : Settings → Circumstances → PooledConn → PooledConn → Type 0
Shaken settings c pc pc' =
    (major : ℕ) × (minor : ℕ) × (conn : Conn) × (bolt_handshake settings pc.conn
      ≡ ok (major, minor) conn)
    × (pc' ≡ mark_authenticated c.later major minor (record pc { conn = conn }))

-- What is handed out is fresh and touched, or else has had its handshake.
abbrev pub HandedOut : Settings → Circumstances → PooledConn → PooledConn → Type 0
HandedOut settings c pc pc' =
    (IsFresh settings.max_idle_time c.now pc × (pc' ≡ touch c.now pc))
    ⊎ (¬ IsFresh settings.max_idle_time c.now pc × Shaken settings c pc pc')

abbrev IfEnsured : (PooledConn → Type 0) → Ensured → Type 0
IfEnsured P (ensured held pool) = P (used held)
IfEnsured P (refused why held pool) = Unit
IfEnsured P unending = Unit
