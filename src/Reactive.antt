-- ===== src/Reactive.antt =====
-- src/driver/reactive_operators.go: the operators on streams of events.
pub mod Operators
pub mod Laws
pub mod Batch
pub mod Batches
pub mod ByTime
pub mod Pipeline
pub mod Terminal
pub mod Kept
pub mod Batched
pub mod Complete
pub mod Collect
pub mod Backpressure
pub mod Latest
pub mod Drained
mod Runs
