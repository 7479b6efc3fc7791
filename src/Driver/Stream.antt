-- ===== src/Driver/Stream.antt =====
-- src/driver/streaming_connection.go: a query as a stream of records, fetched PULL by PULL.
pub mod State
pub mod Pull
pub mod Start
pub mod Started
pub mod Delivery
pub mod Returns
pub mod Pool
