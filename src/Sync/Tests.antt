-- ===== src/Sync/Tests.antt =====
-- From block three, the source gives two blocks back to the genesis block.
use teler.Base.{
  ℕ, ◌+◌, ◌≤◌, ◌≡◌, refl, true, Option, none, some, List, [], ◌∷◌, Outcome, fail, done, arith, ◌==◌,
  if◌then◌else◌, length,
}
use teler.Blockchain.Chain.{Block, new_blockchain, has_block, get_block_by_hash}
use teler.Blockchain.Add.{add_block}
use teler.Blockchain.Head.{set_head}
use teler.Backend.{
  Committing, Execution, Commits, Backend, import_blocks, import_block, execute, adopt,
}
use teler.Sync.{Failure, imported, backward_sync}
use teler.Sync.Backward.{
  IsWalk, IsLinked, turned, backward_sync-import_blocks, backward_sync-IsWalk,
}

abbrev block_at : ℕ → Block
block_at n = record { hash = n + 1; parent_hash = n; number = n; transactions = [] }

abbrev counting : Execution ℕ ℕ
counting = record {
  root = λ blk. 0;
  get_mutable = λ sa height root. some sa;
  process = λ blk m. some (([], 21000), m + 1);
  validate = λ blk receipts gas. gas == 21000;
  commit = λ sa m blk. (m, Committing.committed);
}

abbrev all_commits : Commits
all_commits = record {
  adding = λ h. true;
  heading = λ h. true;
  pruning = λ h. true;
  tail_put = true;
}

abbrev new_backend : Backend ℕ
new_backend = record { bc = new_blockchain 128 32 (block_at 0); sa = 0 }

abbrev source : ℕ → Option Block
source h = if h == 3 then some (block_at 2) else if h == 2 then some (block_at 1) else none

source-honest : (h : ℕ) (blk : Block) → source h ≡ some blk → blk.hash ≡ h
source-honest h blk e = ground arith

source-IsWalk : IsWalk source new_backend.bc 3 (block_at 2 ∷ block_at 1 ∷ [])
unfolding has_block new_blockchain
source-IsWalk =
    IsWalk.back 3 (block_at 2) (block_at 1 ∷ []) refl refl
      (IsWalk.back 2 (block_at 1) [] refl refl (IsWalk.there 1 refl))

backward_sync-import_blocks_example :
    (backward_sync counting all_commits source new_backend (block_at 3) 2
      ≡ imported (
          import_blocks counting all_commits new_backend
            (block_at 1 ∷ block_at 2 ∷ block_at 3 ∷ [])
            none))
    × IsLinked (block_at 1 ∷ block_at 2 ∷ block_at 3 ∷ [])
backward_sync-import_blocks_example =
    backward_sync-import_blocks counting all_commits source new_backend (block_at 3) 2
      (block_at 2 ∷ block_at 1 ∷ []) source-honest source-IsWalk (omega arith)

abbrev left : Outcome (Failure ℕ) (Backend ℕ) → Backend ℕ
left (fail why) = new_backend
left (done b) = b

abbrev synced : Backend ℕ
synced = left (backward_sync counting all_commits source new_backend (block_at 3) 2)

synced-done : backward_sync counting all_commits source new_backend (block_at 3) 2 ≡ done synced
unfolding backward_sync import_blocks import_block execute adopt new_blockchain has_block
    get_block_by_hash add_block set_head
synced-done = refl

backward_sync-IsWalk_example :
    (walk : List Block) × IsWalk source new_backend.bc 3 walk
    × (length walk ≤ 2)
    × (import_blocks counting all_commits new_backend (turned walk (block_at 3 ∷ [])) none
        ≡ done synced)
backward_sync-IsWalk_example =
    backward_sync-IsWalk counting all_commits source new_backend synced (block_at 3) 2 synced-done
