-- ===== src/Backend/Tests.antt =====
-- Imports with a processor that gives every block no receipts, at a state that is the number of
-- blocks it has seen.
use teler.Base.{ℕ, ◌+◌, ◌≡◌, refl, true, Option, none, some, [], Outcome, fail, done, ◌⊎◌, arith}
use teler.Base.{◌==◌}
use teler.Blockchain.Chain.{Block, new_blockchain, has_block, get_block_by_hash}
use teler.Blockchain.Add.{add_block}
use teler.Backend.{Committing, Execution, Commits, Backend, Error, import_block, execute, adopt}
use teler.Backend.Import.{IsStranded}
use teler.Backend.Retry.{import_block-retry}

abbrev genesis : Block
genesis = record { hash = 1; parent_hash = 0; number = 0; transactions = [] }

abbrev block_one : Block
block_one = record { hash = 2; parent_hash = 1; number = 1; transactions = [] }

-- Whether the states are committed is the argument.
abbrev counting : Committing → Execution ℕ ℕ
counting answer = record {
  root = λ blk. 0;
  get_mutable = λ sa height root. some sa;
  process = λ blk m. some (([], 21000), m + 1);
  validate = λ blk receipts gas. gas == 21000;
  commit = λ sa m blk. (m, answer);
}

abbrev all_commits : Commits
all_commits = record {
  adding = λ h. true;
  heading = λ h. true;
  pruning = λ h. true;
  tail_put = true;
}

abbrev new_backend : Backend ℕ
new_backend = record { bc = new_blockchain 128 32 genesis; sa = 0 }

abbrev left : Outcome (Error × Backend ℕ) (Backend ℕ) → Backend ℕ
left (fail why) = why.1
left (done b) = b

abbrev stranded : Backend ℕ
stranded =
    left (import_block (counting Committing.commit_error) all_commits new_backend block_one none)

stranded-fail :
    import_block (counting Committing.commit_error) all_commits new_backend block_one none
    ≡ fail (Error.state_error, stranded)
unfolding import_block execute adopt new_blockchain has_block get_block_by_hash add_block
stranded-fail = refl

import_block-retry_example :
    (stranded ≡ new_backend)
    ⊎ (IsStranded
          (counting Committing.commit_error)
          all_commits
          new_backend
          block_one
          none
          Error.state_error
          stranded
        × (has_block stranded.bc block_one.hash ≡ true)
        × ((c : Backend ℕ) (again : Option Block)
            → has_block c.bc block_one.hash ≡ true
            → import_block (counting Committing.commit_error) all_commits c block_one again
              ≡ done c))
unfolding new_blockchain
import_block-retry_example =
    import_block-retry (counting Committing.commit_error) all_commits new_backend stranded block_one
      none Error.state_error (omega arith) stranded-fail

abbrev grown : Backend ℕ
grown = left (import_block (counting Committing.committed) all_commits new_backend block_one none)
