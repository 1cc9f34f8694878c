-- ===== src/Worldstate/Account.antt =====
-- worldstate/mutableaccount.go and mutableaccount_impl.go: an account that a transaction is changing,
-- its setters and the closures that undo them, and what it hands over in the end.
pub mod Object
pub mod Setters
pub mod Finalized
pub mod Reverts
pub mod Soundness
pub mod Lifecycle
pub mod CodeCount
pub mod Undone
mod Tests
