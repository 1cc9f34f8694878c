-- ===== src/Backend/Retry.antt =====
-- ImportBlock again after an error, and what a block has gone through that changed the backend.
use teler.Base.{◌≤◌, ◌≡◌, ◌≢◌, refl, true, Option, List, fail, done, ◌⊎◌, inl, inr}
use teler.Blockchain.Chain.{Block, Receipt, Chain, Result, has_block}
use teler.Blockchain.Add.{add_block}
use teler.Blockchain.Head.{set_head}
use teler.Backend.{Committing, Execution, Commits, Backend, Error, headed, import_block}
use teler.Backend.Import.{IsStranded, import_block-failed, add_block-has_block}

module _ {A M : Type 0} (exec : Execution A M) (commits : Commits) where
  known-done :
      (b : Backend A) (blk : Block) (prv_blk : Option Block)
      → has_block b.bc blk.hash ≡ true
      → import_block exec commits b blk prv_blk ≡ done b
  unfolding import_block
  known-done b blk prv_blk known = rw (known) refl

  -- The block was added with the receipts, the state was committed or was there already, and SetHead
  -- moved the head or failed.
  abbrev pub IsAdopted : Backend A → Block → List Receipt → M → Backend A → Type 0
  IsAdopted b blk receipts m' b' =
      (bc : Chain) × (add_block (commits.adding blk.hash) b.bc blk receipts ≡ Result.ok bc)
      × (b'.sa ≡ (exec.commit b.sa m' blk).0)
      × ((exec.commit b.sa m' blk).1 ≢ Committing.commit_error)
      × (b'.bc
          ≡ (headed exec commits (record b { bc = bc })
              (set_head (commits.heading blk.hash) commits.pruning commits.tail_put bc
                blk.hash)).bc)

  -- ImportBlock that fails on a block that is not below the tail: the backend is as it was; or the block
  -- was executed and added to the store, and then the Commit of its state answered an error. In that
  -- case the block is in the store, and as long as it is, whatever has become of the backend, an
  -- ImportBlock of it returns without an error and changes nothing, so that its state is not committed.
  pub import_block-retry :
      (b b' : Backend A) (blk : Block) (prv_blk : Option Block) (why : Error)
      → b.bc.tail ≤ blk.number
      → import_block exec commits b blk prv_blk ≡ fail (why, b')
      → (b' ≡ b)
        ⊎ (IsStranded exec commits b blk prv_blk why b'
            × (has_block b'.bc blk.hash ≡ true)
            × ((c : Backend A) (again : Option Block)
                → has_block c.bc blk.hash ≡ true
                → import_block exec commits c blk again ≡ done c))
  import_block-retry b b' blk prv_blk why above r =
      elim (import_block-failed exec commits b blk prv_blk why b' r) [
        | inl same ↦ inl same
        | inr (is, receipts, m', ran, added, refused) ↦ inr (
          (is, receipts, m', ran, added, refused),
          add_block-has_block (commits.adding blk.hash) b.bc b'.bc blk receipts above added,
          λ c again. known-done c blk again,
        )
      ]
