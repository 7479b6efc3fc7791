-- ===== src/Cache.antt =====
-- src/cypher/cache.go and src/optimized/cache.go: the caches of compiled queries.
pub mod Table
pub mod Fifo
pub mod Queue
pub mod Race
pub mod Bounded
mod Runs
