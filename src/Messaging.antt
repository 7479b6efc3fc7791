-- ===== src/Messaging.antt =====
-- src/bolt/messaging: the messages of the Bolt protocol, their framing in chunks, and the
-- request and response exchanges on a connection.
pub mod Connection
pub mod Message
pub mod Request
pub mod Exchange
pub mod Framing
pub mod Accounting
pub mod Delivery
pub mod Progress
pub mod Termination
pub mod Records
pub mod Begin
mod Runs
