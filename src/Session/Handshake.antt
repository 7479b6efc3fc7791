-- ===== src/Session/Handshake.antt =====
-- CheckVersion, SendHello and Authenticate of src/internal/boltutil/boltutil.go.
use gopher_cypher.Common.{ℕ, List, [], ◌∷◌, ◌==◌, ◌&&◌, not, if◌then◌else◌}
use gopher_cypher.Common.Text.{codes}
use gopher_cypher.Packstream.Value.{Fields, string, field, no_fields}
use gopher_cypher.Messaging.Connection.{
  Action, Filled, full, ok, err, ◌>>=◌, ◌>>◌, pure, fail, write, set_read_deadline, read_full,
  http_response, unsupported_version, version_read_failed, rejected,
}
use gopher_cypher.Messaging.Message.{Message, hello, logon, failure, failure_message}
use gopher_cypher.Messaging.Request.{send}

-- The magic number, and the versions that the client offers: 5.8, and 5.2.
abbrev pub magic : List ℕ
magic =
    0x60 ∷ 0x60 ∷ 0xb0 ∷ 0x17 ∷ 0 ∷ 0 ∷ 8 ∷ 5 ∷ 0 ∷ 0 ∷ 2 ∷ 5 ∷ 0 ∷ 0 ∷ 0 ∷ 0 ∷ 0 ∷ 0 ∷ 0 ∷ 0 ∷ []

-- The checks on the minor and the major version that the server chose.
unfoldable pub accept_version : ℕ → ℕ → Action (ℕ × ℕ)
accept_version minor major conn =
    if (major == 80) && (minor == 84)
    then err http_response conn
    else if not (major == 5)
    then err (unsupported_version major minor) conn
    else if not (minor == 8) && not (minor == 2)
    then err (unsupported_version major minor) conn
    else ok (major, minor) conn

-- buf[3] and buf[2].
unfoldable pub version_of : List ℕ → Action (ℕ × ℕ)
unfolding accept_version
version_of (a ∷ b ∷ minor ∷ major ∷ rest) = accept_version minor major
version_of _ = fail version_read_failed

unfoldable pub after_version_read : Filled → Action (ℕ × ℕ)
unfolding version_of
after_version_read (full answer rest) conn = version_of answer (record conn { incoming = rest })
after_version_read _ conn = err version_read_failed (record conn { incoming = [] })

unfoldable pub read_version : Action (ℕ × ℕ)
unfolding after_version_read
read_version conn = after_version_read (read_full 4 conn.incoming conn.ending) conn

unfoldable pub check_version : Action (ℕ × ℕ)
unfolding read_version
check_version = do set_read_deadline; write magic; read_version

-- The metadata describes the runtime: a parameter. The response is not looked at.
unfoldable pub send_hello : Fields → Action (Unit {0})
send_hello metadata = do response ← send (hello metadata); pure tt

-- `if messageFail, isFail := response.(*messaging.Failure); isFail`
unfoldable pub check_logon : Message → Action (Unit {0})
check_logon (failure m) = fail (rejected (failure_message m))
check_logon _ = pure tt

abbrev pub credentials : List ℕ → List ℕ → Fields
credentials username password = field (codes "scheme") (string (codes "basic")) (
    field (codes "principal") (string username)
      (field (codes "credentials") (string password) no_fields))

unfoldable pub authenticate : List ℕ → List ℕ → Action (Unit {0})
unfolding check_logon
authenticate username password = do
  response ← send (logon (credentials username password))
  check_logon response
