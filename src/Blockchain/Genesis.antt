-- ===== src/Blockchain/Genesis.antt =====
-- A new chain has the invariants that adding blocks and moving the head keep.
use teler.Base.{ℕ, ◌≡◌, ◌≢◌, refl, some, [], ◌∷◌, arith}
use teler.Blockchain.Chain.{Block, new_blockchain}
use teler.Blockchain.Head.Canonical.{IsStored, IsCanonical}
use teler.Blockchain.Head.Reachable.{HasForks}

module _ (retain frequency : ℕ) (genesis : Block) where
  -- Where the genesis block has number 0, its hash is not 0 and its parent's hash is neither its own
  -- nor that of a block, a new chain has its invariants, with the genesis block as the top of the
  -- canonical chain.
  pub new_blockchain-IsCanonical :
      genesis.number ≡ 0
      → genesis.hash ≢ 0
      → genesis.parent_hash ≢ genesis.hash
      → let c = new_blockchain retain frequency genesis in
        IsStored c × HasForks c × IsCanonical c c.forks genesis × (c.head ≡ some genesis.hash)
  unfolding new_blockchain
  new_blockchain-IsCanonical n h p =
      let c = new_blockchain retain frequency genesis in
      (
        record {
          no_zero = ground arith;
          hashed = λ h b e. ground arith;
          numbered = λ h b q e f. ground arith;
          bounded = λ h b e. ground arith;
        },
        record {
          not_empty = λ k e. ground arith;
          forks_at = λ h b e t. (genesis.hash, genesis.hash ∷ [], ground arith);
        },
        record {
          at_top = ground arith;
          linked = λ i t lt. absurd (omega arith);
          above = λ i lt. ground arith;
        },
        refl,
      )
