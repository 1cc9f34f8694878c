-- ===== src/Types.antt =====
-- types/types.go, and what the node takes from go-ethereum and uint256. Hashes, addresses and
-- 256-bit words are the numbers that their bytes spell: the code compares them and uses them as
-- keys, and reads nothing else of them.
use teler.Base.{ℕ, Bool, List, Map}

-- Functions of third-party packages that the node calls.
pub record Library : Type 0 where
  -- crypto.Keccak256Hash
  pub keccak256_hash : List ℕ → ℕ
  -- types.EmptyCodeHash
  pub empty_code_hash : ℕ
  -- types.EmptyRootHash
  pub empty_root_hash : ℕ
  -- z.Add and z.Sub of uint256
  pub uint256_add : ℕ → ℕ → ℕ
  pub uint256_sub : ℕ → ℕ → ℕ
  -- z.Sign() < 0, which reads the word as a signed one
  pub uint256_is_negative : ℕ → Bool
  -- config.IsEIP158(height)
  pub is_eip158 : ℕ → Bool

-- AccountValue
pub record AccountValue : Type 0 where
  pub nonce : ℕ
  pub balance : ℕ
  pub code_hash : ℕ
  pub dirty_storage : Bool
  pub version : ℕ

-- LayerLog. The key "addr-version" of the updated storage is its two parts, and a key with no inner
-- map reads as one with an empty map. A count of code is the bit pattern of its int64, 0 where the
-- map has no entry.
pub record LayerLog : Type 0 where
  pub block_number : ℕ
  pub root_hash : ℕ
  pub updated_accounts : Map AccountValue
  pub updated_code_count : ℕ → ℕ
  pub code_preimage : Map (List ℕ)
  pub updated_storage : ℕ → ℕ → Map ℕ
