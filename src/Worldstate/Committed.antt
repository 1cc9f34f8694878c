-- ===== src/Worldstate/Committed.antt =====
-- worldstate/tempcommitted_impl.go: the changes of the transactions of a block that are finished,
-- between the layer of the last block and the transaction that is running.
pub mod ReadBack
pub mod HandedOver
mod Tests
use teler.Base.{
  ℕ, Bool, false, Option, none, some, List, [], ◌∷◌, map, Map, empty, put, get_or, update, add64,
  length,
}
use teler.Types.{Library, AccountValue}
use teler.Worldstate.Layer.{Layer}
use teler.Worldstate.Account.Object.{Account, new_mutable_account}
use teler.Worldstate.Account.Finalized.{Finalized, get_finalized}

-- types.Log of go-ethereum, with what the contract emits as one value.
pub record Log : Type 0 where
  pub content : ℕ
  pub tx_hash : ℕ
  pub tx_index : ℕ
  pub index : ℕ
  pub block_number : ℕ
  pub block_hash : ℕ

-- tempCommittedState. The inner maps of CommittedStorage are total in their key: a key with no
-- inner map reads as one with an empty map. A count is the bit pattern of its int64.
pub record Committed : Type 0 where
  pub parent : Layer
  pub new_height : ℕ
  pub log_size : ℕ
  pub logs : Map (List Log)
  pub committed_accounts : Map AccountValue
  pub committed_code_count : ℕ → ℕ
  pub code_preimage : Map (List ℕ)
  pub committed_storage : ℕ → ℕ → Map ℕ
  pub overriden : ℕ → Bool
  pub committed : Bool

-- newTempCommittedState
unfoldable pub new_temp_committed : Layer → ℕ → Committed
new_temp_committed parent new_height = record {
  parent = parent;
  new_height = new_height;
  log_size = 0;
  logs = empty;
  committed_accounts = empty;
  committed_code_count = λ h. 0;
  code_preimage = empty;
  committed_storage = λ a v. empty;
  overriden = λ a. false;
  committed = false;
}

-- The account as the last finished transaction left it.
unfoldable pub account_value : Committed → ℕ → AccountValue
account_value s addr = get_or (s.committed_accounts addr) (s.parent.get_account_value addr)

-- GetMutableAccount. The copies it makes of the code and of the storage are the values.
unfoldable pub get_mutable_account : Committed → ℕ → Account
unfolding account_value
get_mutable_account s addr =
    let acct = account_value s addr in
    new_mutable_account s.parent addr acct (s.code_preimage acct.code_hash)
      (s.committed_storage addr acct.version) (s.overriden addr)

-- l.BlockNumber = blockNumber; l.BlockHash = blockHash
abbrev pub annotate : ℕ → ℕ → Log → Log
annotate block_number block_hash l = record l {
  block_number = block_number;
  block_hash = block_hash;
}

-- GetLogs writes through the pointers, so the annotated logs are the state's too.
unfoldable pub get_logs : Committed → ℕ → ℕ → ℕ → List Log × Committed
get_logs s hash block_number block_hash = elim (s.logs hash) [
  | none ↦ ([], s)
  | some logs ↦
      let annotated = map (annotate block_number block_hash) logs in
      (annotated, record s { logs = put s.logs hash annotated })
]

-- `if len(knownCode) > 0`
abbrev pub keep_code : Map (List ℕ) → ℕ → Option (List ℕ) → Map (List ℕ)
keep_code m hash none = m
keep_code m hash (some []) = m
keep_code m hash (some (x ∷ xs)) = put m hash (x ∷ xs)

-- for key, val := range knownStorage { m[key] = val }
abbrev pub merge : Map ℕ → Map ℕ → Map ℕ
merge m over key = elim (over key) [ none ↦ m key | some val ↦ some val ]

-- One round of the loop of ApplyChanges.
unfoldable pub apply_one : Committed → ℕ → Finalized → Committed
apply_one s addr f =
    let version = f.final_state.version in
    record s {
      committed_accounts = put s.committed_accounts addr f.final_state;
      code_preimage = keep_code s.code_preimage f.final_state.code_hash f.known_code;
      committed_code_count = λ h. add64 (s.committed_code_count h) (f.known_code_diff h);
      committed_storage = update s.committed_storage addr (
          update (s.committed_storage addr) version
            (merge (s.committed_storage addr version) f.known_storage));
      overriden = update s.overriden addr f.overriden;
    }

-- `range dirtyAccounts` visits the entries in an order that Go does not fix: it is the list.
unfoldable pub apply_accounts : Library → Committed → List ℕ → Map Account → Committed
unfolding apply_one
apply_accounts lib s [] dirty = s
apply_accounts lib s (addr ∷ rest) dirty =
    apply_accounts lib
      (elim (dirty addr) [ none ↦ s | some acct ↦ apply_one s addr (get_finalized lib acct) ]) rest
      dirty

-- ApplyChanges
unfoldable pub apply_changes : Library → Committed → List ℕ → ℕ → List Log → Map Account → Committed
unfolding apply_accounts
apply_changes lib s order tx_hash logs dirty =
    let applied = apply_accounts lib s order dirty in
    record applied {
      logs = put applied.logs tx_hash logs;
      log_size = add64 applied.log_size (length logs);
    }
