-- ===== src/Statestore.antt =====
-- statestore/statestore_impl.go: the contents of the datastore under the persisted state, and the
-- queries. A section of the datastore, which is the keys with one prefix, is a map; a value is what
-- its encoding decodes to. A read succeeds, with ErrNotFound where there is no entry.
pub mod Persist
pub mod Accounts
pub mod Codes
pub mod Answers
pub mod Totals
pub mod Versions
pub mod Collect
pub mod Genesis
pub mod Samples
mod Tests
use teler.Base.{ℕ, Bool, true, false, Option, none, some, List, Map, empty, get_or}
use teler.Types.{Library, AccountValue, LayerLog}

-- rawCodeValue: the count is the bit pattern of its int64.
pub record CodeValue : Type 0 where
  pub code : List ℕ
  pub count : ℕ

-- The sections: p, d, l, a, v, s, c and g.
pub record Store : Type 0 where
  pub persisted : Option (ℕ × ℕ)
  pub children : ℕ → ℕ → Option (List ℕ)
  pub layer_logs : ℕ → ℕ → Option LayerLog
  pub account_values : Map AccountValue
  pub account_versions : Map ℕ
  pub storage : ℕ → ℕ → ℕ → Option ℕ
  pub codes : Map CodeValue
  pub gc : ℕ → ℕ → Bool

unfoldable pub empty_store : Store
empty_store = record {
  persisted = none;
  children = λ h r. none;
  layer_logs = λ h r. none;
  account_values = empty;
  account_versions = empty;
  storage = λ a v k. none;
  codes = empty;
  gc = λ a v. false;
}

-- GetPersistedHeight, GetChildren and GetLayerLog; `none` is ErrNotFound.
unfoldable pub get_persisted_height : Store → Option (ℕ × ℕ)
get_persisted_height s = s.persisted

unfoldable pub get_children : Store → ℕ → ℕ → Option (List ℕ)
get_children s height root_hash = s.children height root_hash

unfoldable pub get_layer_log : Store → ℕ → ℕ → Option LayerLog
get_layer_log s height root_hash = s.layer_logs height root_hash

-- GetAccountValue
unfoldable pub get_account_value : Library → Store → ℕ → AccountValue
get_account_value lib s addr = elim (s.account_values addr) [
  | none ↦ record {
    nonce = 0;
    balance = 0;
    code_hash = lib.empty_code_hash;
    dirty_storage = false;
    version = get_or (s.account_versions addr) 0;
  }
  | some raw ↦ raw
]

-- GetStorageByVersion
unfoldable pub get_storage_by_version : Store → ℕ → ℕ → ℕ → ℕ
get_storage_by_version s addr version key = get_or (s.storage addr version key) 0

-- GetCodeByHash; `none` is ErrNotFound.
unfoldable pub get_code_by_hash : Store → ℕ → Option (List ℕ)
get_code_by_hash s code_hash = elim (s.codes code_hash) [ none ↦ none | some v ↦ some v.code ]
