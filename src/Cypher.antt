-- ===== src/Cypher.antt =====
-- src/cypher: the parameters of a query, the tree of its clauses, and the compiler to text.
pub mod Parameters
pub mod Tree
pub mod Compile
pub mod Visit
pub mod Template
pub mod Emit
pub mod Built
pub mod Refines
pub mod Decimal
pub mod Numbered
pub mod Registers
pub mod Renders
pub mod Compiled
pub mod Blind
pub mod Strings
pub mod Clause
pub mod Query
pub mod Place
pub mod Order
pub mod Locked
pub mod Deadlock
pub mod Stale
pub mod Shares
pub mod Minimal
pub mod Samples
mod Runs
mod QueryRuns
