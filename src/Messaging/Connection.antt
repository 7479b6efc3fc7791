-- ===== src/Messaging/Connection.antt =====
-- The net.Conn that src/bolt/messaging/request.go writes to and reads from, and the Go outcomes
-- of the calls that use it.
use gopher_cypher.Common.{
  ℕ, zero, suc, List, [], ◌∷◌, ◌++◌, Bool, leb, if◌then◌else◌, length, take, drop,
}
use gopher_cypher.Packstream.Pack.{PackError}
use gopher_cypher.Packstream.Unpack.{UnpackError}

-- How reads end once the peer has sent all that it sends: the peer closes, or the deadline passes.
pub data Ending : Type 0 where
  closes stalls : Ending

-- What the peer will have sent, what was written to the peer, how many further calls of Write
-- succeed before the connection breaks, and whether SetReadDeadline succeeds.
pub record Conn : Type 0 where
  pub incoming : List ℕ
  pub outgoing : List ℕ
  pub writes_left : ℕ
  pub ending : Ending
  pub can_set_deadline : Bool

-- The errors of src/bolt/messaging/request.go and of src/internal/boltutil/boltutil.go, with what
-- their messages report.
pub data Error : Type 0 where
  pack_error : PackError → Error
  too_many_fields write_failed deadline_failed : Error
  closed_in_header header_read_failed chunk_read_failed : Error
  unpack_error : UnpackError → Error
  invalid_structure invalid_signature invalid_fields : Error
  query_failed pull_failed : List ℕ → List ℕ → Error
  unexpected_response unexpected_pull_response : ℕ → Error
  invalid_fields_length expected_map missing_fields_key fields_not_a_list : Error
  invalid_record invalid_record_values : Error
  http_response version_read_failed : Error
  unsupported_version : ℕ → ℕ → Error
  rejected : List ℕ → Error

-- Go's (value, error) with the connection afterwards. `stuck` is no Go outcome: out of fuel.
pub data Outcome {ℓ} (A : Type ℓ) : Type ℓ where
  ok : A → Conn → Outcome A
  err : Error → Conn → Outcome A
  stuck : Outcome A

abbrev pub Action {ℓ} : Type ℓ → Type ℓ
Action A = Conn → Outcome A

abbrev pub bind {ℓ κ} : {A : Type ℓ} {B : Type κ} → Outcome A → (A → Action B) → Outcome B
bind (ok a conn) f = f a conn
bind (err e conn) f = err e conn
bind stuck f = stuck

infixl 5 ◌>>=◌ ◌>>◌
abbrev pub ◌>>=◌ {ℓ κ} : {A : Type ℓ} {B : Type κ} → Action A → (A → Action B) → Action B
◌>>=◌ m f conn = bind (m conn) f

abbrev pub ◌>>◌ {ℓ κ} : {A : Type ℓ} {B : Type κ} → Action A → Action B → Action B
◌>>◌ m k conn = bind (m conn) (λ _. k)

abbrev pub pure {ℓ} : {A : Type ℓ} → A → Action A
pure a conn = ok a conn

abbrev pub fail {ℓ} : {A : Type ℓ} → Error → Action A
fail e conn = err e conn

pub write_within : ℕ → List ℕ → Action (Unit {0})
write_within zero bs conn = err write_failed conn
write_within (suc n) bs conn =
    ok tt (record conn { outgoing = conn.outgoing ++ bs; writes_left = n })

-- conn.Write(data): all of it, or an error.
unfoldable pub write : List ℕ → Action (Unit {0})
unfolding write_within
write bs conn = write_within conn.writes_left bs conn

-- conn.SetReadDeadline, for a read of one message.
unfoldable pub set_read_deadline : Action (Unit {0})
set_read_deadline conn = if conn.can_set_deadline then ok tt conn else err deadline_failed conn

-- io.ReadFull(conn, buf) for a buffer of `n` bytes: the errors io.EOF, io.ErrUnexpectedEOF, and a
-- timeout. A failing read has taken all that there was.
pub data Filled : Type 0 where
  full : List ℕ → List ℕ → Filled
  eof unexpected_eof timeout : Filled

ended : Ending → List ℕ → Filled
ended stalls input = timeout
ended closes [] = eof
ended closes (b ∷ bs) = unexpected_eof

unfoldable pub read_full : ℕ → List ℕ → Ending → Filled
unfolding ended
read_full n input ending =
    if leb n (length input) then full (take n input) (drop n input) else ended ending input
