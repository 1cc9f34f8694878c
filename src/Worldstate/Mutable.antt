-- ===== src/Worldstate/Mutable.antt =====
-- worldstate/mutablestate_impl.go: the state that a transaction changes, with the journal by which
-- the changes of a failed call are taken back.
pub mod State
pub mod Accounts
pub mod Transaction
pub mod Snapshots
pub mod Entries
pub mod Reverts
pub mod AccountChanges
pub mod TransactionChanges
pub mod Operations
pub mod Calls
pub mod Observations
pub mod Atomicity
pub mod SelfDestruct
pub mod Initial
pub mod TransientChanges
pub mod Closures
pub mod Marks
pub mod Extensions
mod Tests
