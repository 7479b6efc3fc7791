-- ===== src/Packstream.antt =====
-- src/bolt/packstream/packstream.go: the PackStream serialisation of Go values.
pub mod Value
pub mod Pack
pub mod Unpack
pub mod Encode
pub mod Appends
pub mod Markers
pub mod Canonical
pub mod RoundTrip
pub mod Termination
pub mod Prefix
mod Runs
