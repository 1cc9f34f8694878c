-- ===== src/Statestore/Genesis/Started.antt =====
-- The state store of the genesis block.
use teler.Base.{
  ℕ, ◌^◌, ◌<◌, ◌≤◌, ◌≡◌, ◌≢◌, Bool, true, false, Option, none, some, List, [], ◌∷◌, if◌then◌else◌,
  length, ◌==◌,
}
use teler.Types.{Library, AccountValue, LayerLog}
use teler.Statestore.Genesis.{GenesisAccount, layer_log_from_genesis}

-- After `n` accounts: all at version 1, and the counted codes are there.
pub record IsGenesis (n : ℕ) (log : LayerLog) : Type 0 where
  pub first : (a : ℕ) (v : AccountValue) → log.updated_accounts a ≡ some v → v.version ≡ 1
  pub few : (h : ℕ) → log.updated_code_count h ≤ n
  pub there :
      (h : ℕ) → log.updated_code_count h ≢ 0 → (code : List ℕ) × (log.code_preimage h ≡ some code)

-- The state that a layer log is of.
abbrev at : LayerLog → ℕ × ℕ
at log = (log.block_number, log.root_hash)

module _ (lib : Library) (alloc : List (ℕ × GenesisAccount)) (genesis_root : ℕ)
    (room : length alloc < 2 ^ 63) where
  genesis_log : LayerLog
  genesis_log = layer_log_from_genesis lib alloc genesis_root

-- The account of an address in the genesis block, and what it is worth as a value.
abbrev pub genesis_account : List (ℕ × GenesisAccount) → ℕ → Option GenesisAccount
genesis_account [] a = none
genesis_account ((addr, account) ∷ rest) a = elim (genesis_account rest a) [
  | some later ↦ some later
  | none ↦ if a == addr then some account else none
]

abbrev pub has_slots : List (ℕ × ℕ) → Bool
has_slots [] = false
has_slots (slot ∷ rest) = true

abbrev pub genesis_value : Library → GenesisAccount → AccountValue
genesis_value lib account = record {
  nonce = account.nonce;
  balance = account.balance;
  code_hash = lib.keccak256_hash account.code;
  dirty_storage = has_slots account.storage;
  version = 1;
}

abbrev pub value_of : Library → Option GenesisAccount → Option AccountValue → Option AccountValue
value_of lib none before = before
value_of lib (some account) before = some (genesis_value lib account)
