-- ===== src/Session/Finishes.antt =====
-- The handshake of src/internal/boltutil/boltutil.go returns on every connection.
use gopher_cypher.Common.{
  ℕ, List, [], ◌∷◌, ◌&&◌, not, Bool, true, false, if◌then◌else◌, ◌≢◌, refl, ◌==◌,
}
use gopher_cypher.Messaging.Connection.{
  Conn, Outcome, ok, err, stuck, Action, bind, write, set_read_deadline, Filled, full, eof,
  unexpected_eof, timeout, read_full,
}
use gopher_cypher.Messaging.Message.{Message, signature, message_fields, failure}
use gopher_cypher.Messaging.Request.{send, send_request}
use gopher_cypher.Messaging.Progress.{Leaves-ne-stuck, Leaves-send_request, Leaves-write}
use gopher_cypher.Session.Handshake.{
  check_version, send_hello, authenticate, check_logon, read_version, after_version_read,
  version_of, accept_version,
}
use gopher_cypher.Session.Running.{Settings, bolt_handshake}

-- A call on the connection returns.
abbrev pub Finishes {ℓ} : {A : Type ℓ} → Outcome A → Type 0
Finishes (ok a conn) = Unit
Finishes (err e conn) = Unit
Finishes stuck = ⊥

pub finishes {ℓ} : {A : Type ℓ} (o : Outcome A) → o ≢ stuck → Finishes o
finishes (ok a conn) h = tt
finishes (err e conn) h = tt
finishes stuck h = h refl

Finishes-bind {ℓ κ} :
    {A : Type ℓ} {B : Type κ} (o : Outcome A) (f : A → Action B)
    → Finishes o
    → ((a : A) (conn : Conn) → Finishes (f a conn))
    → Finishes (bind o f)
Finishes-bind (ok a conn) f h k = k a conn
Finishes-bind (err e conn) f h k = tt
Finishes-bind stuck f h k = h

Finishes-if {ℓ} :
    {A : Type ℓ} (b : Bool) (x y : Outcome A)
    → Finishes x
    → Finishes y
    → Finishes (if b then x else y)
Finishes-if true x y h k = h
Finishes-if false x y h k = k

Finishes-send : (m : Message) (conn : Conn) → Finishes (send m conn)
unfolding send
Finishes-send m conn =
    finishes (send_request (signature m) (message_fields m) conn)
      (Leaves-ne-stuck _ _ (Leaves-send_request (signature m) (message_fields m) conn))

Finishes-write : (bs : List ℕ) (conn : Conn) → Finishes (write bs conn)
Finishes-write bs conn = finishes (write bs conn) (Leaves-ne-stuck _ _ (Leaves-write bs conn))

Finishes-accept_version :
    (minor major : ℕ) (conn : Conn) → Finishes (accept_version minor major conn)
unfolding accept_version
Finishes-accept_version minor major conn = Finishes-if ((major == 80) && (minor == 84)) _ _ tt (
    Finishes-if (not (major == 5)) _ _ tt
      (Finishes-if (not (minor == 8) && not (minor == 2)) _ _ tt tt))

Finishes-version_of : (answer : List ℕ) (conn : Conn) → Finishes (version_of answer conn)
unfolding version_of
Finishes-version_of (a ∷ b ∷ minor ∷ major ∷ rest) conn = Finishes-accept_version minor major conn
Finishes-version_of [] conn = tt
Finishes-version_of (a ∷ []) conn = tt
Finishes-version_of (a ∷ b ∷ []) conn = tt
Finishes-version_of (a ∷ b ∷ c ∷ []) conn = tt

Finishes-after_version_read : (f : Filled) (conn : Conn) → Finishes (after_version_read f conn)
unfolding after_version_read
Finishes-after_version_read (full answer rest) conn = Finishes-version_of answer _
Finishes-after_version_read eof conn = tt
Finishes-after_version_read unexpected_eof conn = tt
Finishes-after_version_read timeout conn = tt

Finishes-check_version : (conn : Conn) → Finishes (check_version conn)
unfolding check_version set_read_deadline read_version
Finishes-check_version conn =
    Finishes-bind (set_read_deadline conn) _ (Finishes-if conn.can_set_deadline _ _ tt tt)
      (λ _ conn.
        Finishes-bind (write _ conn) _ (Finishes-write _ conn)
          (λ _ conn. Finishes-after_version_read (read_full 4 conn.incoming conn.ending) conn))

Finishes-check_logon : (m : Message) (conn : Conn) → Finishes (check_logon m conn)
unfolding check_logon
Finishes-check_logon (failure m) conn = tt
Finishes-check_logon _ conn = tt

pub Finishes-bolt_handshake :
    (settings : Settings) (conn : Conn) → Finishes (bolt_handshake settings conn)
unfolding bolt_handshake send_hello authenticate
Finishes-bolt_handshake settings conn =
    Finishes-bind (check_version conn) _ (Finishes-check_version conn) λ v conn.
      Finishes-bind _ _ (Finishes-bind (send _ conn) _ (Finishes-send _ conn) λ _ _. tt) λ _ conn.
        Finishes-bind _ _
          (Finishes-bind (send _ conn) _ (Finishes-send _ conn)
            λ m conn. Finishes-check_logon m conn)
          λ _ conn. tt
