-- ===== src/Driver/Result.antt =====
-- src/driver/result.go: a cursor over the records of a query.
pub mod Cursor
pub mod Drain
pub mod Served
pub mod Lone
pub mod Peek
