-- ===== src/Sync.antt =====
-- sync/sync.go, BackwardSync: from a target block back to a block that the node has, then the import of
-- what lies between. The context is not cancelled, and the block source is a parameter.
pub mod Backward
mod Tests
use teler.Base.{
  ℕ, zero, suc, Bool, true, false, Option, none, some, List, [], ◌∷◌, Outcome, fail, done,
  ◌and_then◌, if◌then◌else◌,
}
use teler.Blockchain.Chain.{Block, Chain, has_block}
use teler.Backend.{Execution, Commits, Backend, Error, import_blocks}

-- The errors of BackwardSync, before the import.
pub data Failure (A : Type 0) : Type 0 where
  -- fail to reach canonical chain
  out_of_reach : Failure A
  -- an error of BlockByHash
  no_source : Failure A
  import_failed : Error → Backend A → Failure A

module _ {A : Type 0} where
  abbrev pub fetched : Option Block → Outcome (Failure A) Block
  fetched none = fail Failure.no_source
  fetched (some blk) = done blk

  -- The loop, from the parent that is looked for, with the attempts that are left and the blocks so
  -- far, the oldest first.
  unfoldable pub collect :
      (ℕ → Option Block) → Chain → ℕ → ℕ → List Block → Outcome (Failure A) (List Block)
  collect block_by_hash bc zero parent blocks =
      if has_block bc parent then done blocks else fail Failure.out_of_reach
  collect block_by_hash bc (suc attempts) parent blocks =
      if has_block bc parent
      then done blocks
      else (fetched (block_by_hash parent) and_then λ blk.
          collect block_by_hash bc attempts blk.parent_hash (blk ∷ blocks))

  abbrev pub imported : Outcome (Error × Backend A) (Backend A) → Outcome (Failure A) (Backend A)
  imported (fail why) = fail (Failure.import_failed why.0 why.1)
  imported (done b) = done b

  -- BackwardSync
  unfoldable pub backward_sync :
      {M : Type 0}
      → Execution A M
      → Commits
      → (ℕ → Option Block)
      → Backend A
      → Block
      → ℕ
      → Outcome (Failure A) (Backend A)
  unfolding collect
  backward_sync exec commits block_by_hash b target max_blks_to_query =
      collect block_by_hash b.bc max_blks_to_query target.parent_hash (target ∷ [])
      and_then λ blocks. imported (import_blocks exec commits b blocks none)
