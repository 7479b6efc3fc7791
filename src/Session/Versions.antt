-- ===== src/Session/Versions.antt =====
-- Which answers of a server CheckVersion of src/internal/boltutil/boltutil.go accepts.
use gopher_cypher.Messaging.Delivery.{write-sent}
use gopher_cypher.Common.{
  ◌∙◌, sym, ◌-◌, ℕ, ◌≡◌, ◌⊎◌, ◌↔◌, ◌<◌, refl, arith, List, [], ◌∷◌, ◌++◌, true, inl, inr,
}
use gopher_cypher.Messaging.Connection.{full, Ending, Conn, ok, set_read_deadline, read_full}
use gopher_cypher.Session.Handshake.{
  magic, accept_version, check_version, version_of, after_version_read, read_version,
}

-- The version is one of the two that the client offered.
abbrev pub IsOffered : ℕ → ℕ → Type 0
IsOffered major minor = (major ≡ 5) × ((minor ≡ 8) ⊎ (minor ≡ 2))

accept_version-IsOffered :
    (minor major : ℕ) (conn conn' : Conn) (v : ℕ × ℕ)
    → accept_version minor major conn ≡ ok v conn'
    → IsOffered major minor
unfolding accept_version
accept_version-IsOffered minor major conn conn' v h = ground arith

IsOffered-accept_version :
    (minor major : ℕ) (conn : Conn)
    → IsOffered major minor
    → accept_version minor major conn ≡ ok (major, minor) conn
unfolding accept_version
IsOffered-accept_version minor major conn (p, inl q) = rw p (rw q refl)
IsOffered-accept_version minor major conn (p, inr q) = rw p (rw q refl)

set_read_deadline-held :
    (conn : Conn) → conn.can_set_deadline ≡ true → set_read_deadline conn ≡ ok tt conn
unfolding set_read_deadline
set_read_deadline-held conn d = ground arith

read_full-four :
    (a b c d : ℕ) (rest : List ℕ) (ending : Ending)
    → read_full 4 (a ∷ b ∷ c ∷ d ∷ rest) ending ≡ full (a ∷ b ∷ c ∷ d ∷ []) rest
unfolding read_full
read_full-four a b c d rest ending = ground arith

check_version-accept_version :
    (conn : Conn) (a b minor major : ℕ) (rest : List ℕ)
    → conn.can_set_deadline ≡ true
    → 0 < conn.writes_left
    → conn.incoming ≡ a ∷ b ∷ minor ∷ major ∷ rest
    → check_version conn
      ≡ accept_version minor major (record conn {
        incoming = rest;
        outgoing = conn.outgoing ++ magic;
        writes_left = conn.writes_left - 1;
      })
unfolding check_version read_version after_version_read version_of
check_version-accept_version conn a b minor major rest d w i = rw (set_read_deadline-held conn d) (
    rw (write-sent magic conn w) (rw i (rw (read_full-four a b minor major rest conn.ending) refl)))

-- On a connection that takes a deadline and a write, and to which the server answers four bytes,
-- CheckVersion succeeds exactly if the last two of them are the minor and the major version of an
-- offer, 8 or 2 and 5; it returns these, and leaves what follows the answer.
pub check_version-IsOffered_iff :
    (conn : Conn) (a b minor major : ℕ) (rest : List ℕ)
    → conn.can_set_deadline ≡ true
    → 0 < conn.writes_left
    → conn.incoming ≡ a ∷ b ∷ minor ∷ major ∷ rest
    → (check_version conn
        ≡ ok
            (major, minor)
            (record conn {
              incoming = rest;
              outgoing = conn.outgoing ++ magic;
              writes_left = conn.writes_left - 1;
            }))
      ↔ IsOffered major minor
check_version-IsOffered_iff conn a b minor major rest d w i =
    let e = check_version-accept_version conn a b minor major rest d w i in
    (
      λ h. accept_version-IsOffered minor major _ _ (major, minor) (sym e ∙ h),
      λ o. e ∙ IsOffered-accept_version minor major _ o,
    )
