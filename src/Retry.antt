-- ===== src/Retry.antt =====
-- src/driver/retry.go, and the classification of errors in src/driver/result.go.
pub mod Text
pub mod Errors
pub mod Loop
pub mod Attempts
mod Runs
