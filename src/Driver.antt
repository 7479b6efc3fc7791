-- ===== src/Driver.antt =====
-- src/driver: results of queries as streams.
pub mod Summary
pub mod Stream
pub mod Result
mod Runs
