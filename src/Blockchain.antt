-- ===== src/Blockchain.antt =====
-- The package blockchain: the blocks that the node keeps, the forks at each height, the head of the
-- canonical chain and the pruning of old blocks.
pub mod Chain
pub mod Add
pub mod Head
pub mod Genesis
mod Tests
