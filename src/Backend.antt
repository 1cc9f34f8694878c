-- ===== src/Backend.antt =====
-- backend/backend_impl.go: a block goes through the processor and the validator into the store of
-- blocks and the archive of states. What the archive, the processor and the validator do with a block
-- is behind an interface; the store of blocks is the one of Blockchain.
pub mod Import
pub mod Retry
mod Tests
use teler.Base.{
  ℕ, Bool, true, false, Option, none, some, List, [], ◌∷◌, Outcome, fail, done, ◌and_then◌,
  if◌then◌else◌,
}
use teler.Blockchain.Chain.{
  Block, Receipt, Chain, Result, has_block, get_block_by_hash, set_safe, set_finalized,
}
use teler.Blockchain.Add.{add_block}
use teler.Blockchain.Head.{set_head}
use teler.Blockchain.Chain

-- What Commit of a mutable state answers.
pub data Committing : Type 0 where
  committed : Committing
  already_existed : Committing
  commit_error : Committing

-- The states A of the archive and the mutable states M.
pub record Execution (A M : Type 0) : Type 0 where
  -- blk.Header().Root
  pub root : Block → ℕ
  -- GetMutable at a height and a root; `none` is an error.
  pub get_mutable : A → ℕ → ℕ → Option M
  -- Process, with the receipts and the gas used; `none` is an error.
  pub process : Block → M → Option ((List Receipt × ℕ) × M)
  -- Validate of the receipts and the gas used
  pub validate : Block → List Receipt → ℕ → Bool
  -- Commit, with the archive as it leaves it.
  pub commit : A → M → Block → A × Committing

-- Whether the commits of the datastore of blocks go through.
pub record Commits : Type 0 where
  pub adding : ℕ → Bool
  pub heading : ℕ → Bool
  pub pruning : ℕ → Bool
  pub tail_put : Bool

-- BackendImpl, with what it refers to.
pub record Backend (A : Type 0) : Type 0 where
  pub bc : Chain
  pub sa : A

pub data Error : Type 0 where
  chain_error : Chain.Error → Error
  no_state process_error invalid state_error : Error

module _ {A M : Type 0} (exec : Execution A M) (commits : Commits) where
  -- An error, with the backend as the call leaves it.
  abbrev pub Failure : Type 0
  Failure = Error × Backend A

  abbrev pub orelse : {V : Type 0} → Error → Backend A → Option V → Outcome Failure V
  orelse why b none = fail (why, b)
  orelse why b (some v) = done v

  abbrev pub checked : {V : Type 0} → Backend A → Result V → Outcome Failure V
  checked b (Result.err why) = fail (Error.chain_error why, b)
  checked b (Result.ok v) = done v

  -- Process block
  unfoldable pub execute : Backend A → Block → Block → Outcome Failure (List Receipt × M)
  execute b blk prv_blk =
      orelse Error.no_state b (exec.get_mutable b.sa prv_blk.number (exec.root prv_blk))
      and_then (λ m. orelse Error.process_error b (exec.process blk m))
      and_then (λ r.
          if exec.validate blk r.0.0 r.0.1 then done (r.0.0, r.1) else fail (Error.invalid, b))

  -- Finalize the state; that the state is there already is no error.
  abbrev pub finalize : Backend A → A × Committing → Outcome Failure (Backend A)
  finalize b (sa, Committing.commit_error) = fail (Error.state_error, record b { sa = sa })
  finalize b (sa, Committing.committed) = done (record b { sa = sa })
  finalize b (sa, Committing.already_existed) = done (record b { sa = sa })

  -- Set head; an error is only logged.
  abbrev pub headed : Backend A → Result Chain → Backend A
  headed b (Result.err why) = b
  headed b (Result.ok bc) = record b { bc = bc }

  abbrev pub previous : Backend A → Block → Option Block → Outcome Failure Block
  previous b blk (some prv_blk) = done prv_blk
  previous b blk none = checked b (get_block_by_hash b.bc blk.parent_hash)

  -- Add block, finalize the state and set head.
  unfoldable pub adopt : Backend A → Block → List Receipt × M → Outcome Failure (Backend A)
  adopt b blk r =
      checked b (add_block (commits.adding blk.hash) b.bc blk r.0)
      and_then (λ bc. finalize (record b { bc = bc }) (exec.commit b.sa r.1 blk))
      and_then (λ c. done (
          headed c
            (set_head (commits.heading blk.hash) commits.pruning commits.tail_put c.bc blk.hash)))

  -- ImportBlock
  unfoldable pub import_block : Backend A → Block → Option Block → Outcome Failure (Backend A)
  unfolding execute adopt
  import_block b blk prv_blk =
      if has_block b.bc blk.hash
      then done b
      else (previous b blk prv_blk
          and_then (λ prv. execute b blk prv)
          and_then (λ r. adopt b blk r))

  -- ImportBlocks, from the block before.
  unfoldable pub import_blocks : Backend A → List Block → Option Block → Outcome Failure (Backend A)
  unfolding import_block
  import_blocks b [] prv_blk = done b
  import_blocks b (blk ∷ rest) prv_blk =
      import_block b blk prv_blk and_then λ c. import_blocks c rest (some blk)

  -- DebugForceProcessBlock
  unfoldable pub debug_force_process_block : Backend A → Block → Outcome Failure (Backend A)
  unfolding execute
  debug_force_process_block b blk =
      checked b (get_block_by_hash b.bc blk.parent_hash)
      and_then (λ prv. execute b blk prv)
      and_then (λ r. finalize b (exec.commit b.sa r.1 blk))

-- SetSafeTag and SetFinalizedTag
module _ {A : Type 0} where
  unfoldable pub set_safe_tag : Backend A → ℕ → Backend A
  set_safe_tag b safe = record b { bc = set_safe b.bc safe }

  unfoldable pub set_finalized_tag : Backend A → ℕ → Backend A
  set_finalized_tag b finalized = record b { bc = set_finalized b.bc finalized }
