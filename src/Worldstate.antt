-- ===== src/Worldstate.antt =====
-- The package worldstate: the state of the accounts as a block is executed, on top of the layers
-- that earlier blocks left.
pub mod Layer
pub mod Account
pub mod Committed
pub mod Mutable
pub mod Archive
pub mod Layered
pub mod Samples
