-- ===== src/Worldstate/Layer.antt =====
-- worldstate.go, LayeredWorldState: what an account reads of the layer that its block stands on.
use teler.Base.{ℕ, List}
use teler.Types.{AccountValue}

-- The three readers. A layer also caches what they return, which changes no later answer.
pub record Layer : Type 0 where
  -- GetAccountValue
  pub get_account_value : ℕ → AccountValue
  -- GetCodeByHash
  pub get_code_by_hash : ℕ → List ℕ
  -- GetStorageByVersion: address, version, key
  pub get_storage_by_version : ℕ → ℕ → ℕ → ℕ
