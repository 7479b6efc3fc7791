-- ===== src/Session.antt =====
-- src/internal/boltutil/boltutil.go and src/driver/pooled_conn.go: what makes a connection ready.
pub mod Handshake
pub mod Pooled
pub mod Versions
pub mod Running
pub mod Reuse
pub mod Finishes
pub mod Untouched
pub mod Balance
pub mod Streaming
pub mod Serving
mod Runs
