-- ===== src/Statestore/Genesis.antt =====
-- types/types.go, LayerLogFromGenesis, and statestore/statestore_impl.go, NewStateStoreImpl: the state
-- of the genesis block. The accounts of the genesis block are a list, in the order in which Go visits
-- them, and the amounts are 256-bit words already.
pub mod Started
use teler.Base.{
  ℕ, ◌≡◌, Bool, true, false, Option, none, some, List, [], ◌∷◌, map, Map, empty, put, update,
  incr64, Outcome, fail, done, ◌and_then◌,
}
use teler.Types.{Library, AccountValue, LayerLog}
use teler.Statestore.{Store, empty_store}
use teler.Statestore.Persist.{Error, persist_layer_log, put_children}

-- types.Account of go-ethereum
pub record GenesisAccount : Type 0 where
  pub nonce : ℕ
  pub balance : ℕ
  pub code : List ℕ
  pub storage : List (ℕ × ℕ)

-- for k, v := range account.Storage
unfoldable pub put_all : Map ℕ → List (ℕ × ℕ) → Map ℕ
put_all m [] = m
put_all m ((k, v) ∷ rest) = put_all (put m k v) rest

-- if len(account.Code) > 0
abbrev pub with_code : LayerLog → ℕ → List ℕ → LayerLog
with_code log code_hash [] = log
with_code log code_hash (x ∷ xs) = record log {
  updated_code_count =
      update log.updated_code_count code_hash (incr64 (log.updated_code_count code_hash));
  code_preimage = put log.code_preimage code_hash (x ∷ xs);
}

-- if len(account.Storage) > 0, with acctp.DirtyStorage and the map of version 1
abbrev pub with_storage : LayerLog → ℕ → AccountValue → List (ℕ × ℕ) → LayerLog
with_storage log addr acctp [] = record log {
  updated_accounts = put log.updated_accounts addr acctp;
}
with_storage log addr acctp (slot ∷ rest) = record log {
  updated_accounts = put log.updated_accounts addr (record acctp { dirty_storage = true });
  updated_storage =
      update log.updated_storage addr
        (update (log.updated_storage addr) 1 (put_all empty (slot ∷ rest)));
}

-- One round of the loop over genesis.Alloc.
unfoldable pub add_account : Library → LayerLog → ℕ → GenesisAccount → LayerLog
unfolding put_all
add_account lib log addr account =
    let code_hash = lib.keccak256_hash account.code in
    with_storage (with_code log code_hash account.code) addr
      (record {
        nonce = account.nonce;
        balance = account.balance;
        code_hash = code_hash;
        dirty_storage = false;
        version = 1;
      })
      account.storage

unfoldable pub add_accounts : Library → LayerLog → List (ℕ × GenesisAccount) → LayerLog
unfolding add_account
add_accounts lib log [] = log
add_accounts lib log ((addr, account) ∷ rest) =
    add_accounts lib (add_account lib log addr account) rest

abbrev pub empty_log : ℕ → LayerLog
empty_log genesis_root = record {
  block_number = 0;
  root_hash = genesis_root;
  updated_accounts = empty;
  updated_code_count = λ h. 0;
  code_preimage = empty;
  updated_storage = λ a v. empty;
}

-- LayerLogFromGenesis
unfoldable pub layer_log_from_genesis : Library → List (ℕ × GenesisAccount) → ℕ → LayerLog
unfolding add_accounts
layer_log_from_genesis lib alloc genesis_root = add_accounts lib (empty_log genesis_root) alloc

-- NewStateStoreImpl on an empty datastore, with the orders in which the accounts and the codes of the
-- layer log are visited.
unfoldable pub new_state_store :
    Library → List (ℕ × GenesisAccount) → ℕ → List ℕ → List ℕ → Outcome Error Store
unfolding layer_log_from_genesis
new_state_store lib alloc genesis_root accounts codes =
    let log = layer_log_from_genesis lib alloc genesis_root in
    persist_layer_log empty_store empty_store log accounts codes and_then λ written.
    done (put_children written log.block_number log.root_hash [])
