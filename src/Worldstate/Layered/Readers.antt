-- ===== src/Worldstate/Layered/Readers.antt =====
-- The three readers of a layer, each through its own cache, down to the persisted state.
use teler.Base.{ℕ, Bool, List, [], map, get_or}
use teler.Types.{Library, AccountValue, LayerLog}
use teler.Statestore.{Store}
use teler.Statestore
use teler.Worldstate.Layered.Reads.{Lru, Read, read}

-- The caches of accounts, of codes and of slots; the key "addr-version-key" of a slot is its parts.
pub record Caches : Type 1 where
  pub accts : Lru ℕ AccountValue
  pub code : Lru ℕ (List ℕ)
  pub storage : Lru (ℕ × ℕ × ℕ) ℕ

module _ (caches : Caches) where
  -- layeredStateImpl, whose parent is the next one of a chain.
  pub record Layered : Type 0 where
    pub layer_log : LayerLog
    pub cached_accts : caches.accts.Cache
    pub cached_code : caches.code.Cache
    pub cached_storage : caches.storage.Cache

  -- GetAccountValue
  unfoldable pub get_account_value : Library → Store → List Layered → ℕ → Bool → Read caches.accts
  get_account_value lib s chain addr require_cache =
      read caches.accts require_cache (Statestore.get_account_value lib s)
        (map (λ l. record { own = l.layer_log.updated_accounts; cached = l.cached_accts }) chain)
        addr

  -- GetCodeByHash; the persisted state answers nothing for a code that it does not have.
  unfoldable pub get_code_by_hash : Store → List Layered → ℕ → Bool → Read caches.code
  get_code_by_hash s chain code_hash require_cache =
      read caches.code require_cache (λ h. get_or (Statestore.get_code_by_hash s h) [])
        (map (λ l. record { own = l.layer_log.code_preimage; cached = l.cached_code }) chain)
        code_hash

  -- GetStorageByVersion
  unfoldable pub get_storage_by_version :
      Store → List Layered → ℕ → ℕ → ℕ → Bool → Read caches.storage
  get_storage_by_version s chain addr version key require_cache =
      read caches.storage require_cache (λ at. Statestore.get_storage_by_version s at.0 at.1 at.2)
        (map
          (λ l. record {
            own = λ at. l.layer_log.updated_storage at.0 at.1 at.2;
            cached = l.cached_storage;
          })
          chain)
        (addr, version, key)
