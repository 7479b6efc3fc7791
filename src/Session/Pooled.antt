-- ===== src/Session/Pooled.antt =====
-- The pooledConn of src/driver/pooled_conn.go, without its mutex: one caller at a time holds it.
use gopher_cypher.Common.{ℕ, ◌-◌, ltb, ◌&&◌, Bool, true, false, Option, none, some, if◌then◌else◌}
use gopher_cypher.Common.Int.{ℤ, pos, negsuc}
use gopher_cypher.Messaging.Connection.{Conn}

-- A time is a number of nanoseconds, and none for the zero Time.
pub record PooledConn : Type 0 where
  pub conn : Conn
  pub authenticated : Bool
  pub bolt_version : ℕ × ℕ
  pub created_at : ℕ
  pub last_used : Option ℕ

unfoldable pub new_pooled_conn : ℕ → Conn → PooledConn
new_pooled_conn now conn = record {
  conn = conn;
  authenticated = false;
  bolt_version = (0, 0);
  created_at = now;
  last_used = none;
}

unfoldable pub mark_authenticated : ℕ → ℕ → ℕ → PooledConn → PooledConn
mark_authenticated now major minor pc = record pc {
  authenticated = true;
  bolt_version = (major, minor);
  last_used = some now;
}

unfoldable pub touch : ℕ → PooledConn → PooledConn
touch now pc = record pc { last_used = some now }

unfoldable pub mark_dirty : PooledConn → PooledConn
mark_dirty pc = record pc { authenticated = false }

-- time.Since of the last use is long enough ago if that is the zero Time.
unfoldable pub idle_longer : ℕ → ℕ → Option ℕ → Bool
idle_longer now limit none = true
idle_longer now limit (some t) = ltb limit (now - t)

-- `maxIdleTime > 0 && time.Since(pc.lastUsedAt) > maxIdleTime`
unfoldable pub is_idle : ℤ → ℕ → Option ℕ → Bool
unfolding idle_longer
is_idle (pos limit) now last = ltb 0 limit && idle_longer now limit last
is_idle (negsuc n) now last = false

unfoldable pub needs_reauth : ℤ → ℕ → PooledConn → Bool
unfolding is_idle
needs_reauth max_idle_time now pc =
    if pc.authenticated then is_idle max_idle_time now pc.last_used else true

unfoldable pub age : ℕ → PooledConn → ℕ
age now pc = now - pc.created_at

since_use : ℕ → ℕ → Option ℕ → ℕ
since_use now created none = now - created
since_use now created (some t) = now - t

unfoldable pub idle_time : ℕ → PooledConn → ℕ
unfolding since_use
idle_time now pc = since_use now pc.created_at pc.last_used
