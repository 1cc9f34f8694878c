-- ===== src/Worldstate/Account/Object.antt =====
-- worldstate/mutableaccount_impl.go: an account that a transaction is changing, the
-- statements of the closures that undo its changes, and what is read of it.
use teler.Base.{
  ℕ, ◌%◌, Bool, true, false, ◌&&◌, not, Option, none, some, List, [], ◌∷◌, Map, put, delete, update,
  ◌==◌, if◌then◌else◌, incr64, decr64,
}
use teler.Types.{Library, AccountValue}
use teler.Worldstate.Layer.{Layer}

-- mutableAccountImpl. `none` for the code is Go's nil.
pub record Account : Type 0 where
  pub parent : Layer
  pub addr : ℕ
  pub nonce : ℕ
  pub balance : ℕ
  pub code_hash : ℕ
  pub dirty_storage : Bool
  pub version : ℕ
  pub known_code : Option (List ℕ)
  pub known_code_diff : ℕ → ℕ
  pub overriden : Bool
  pub known_storage : Map ℕ

-- A statement of a revert closure.
pub data Undo : Type 0 where
  -- acct.version--
  version_back : Undo
  -- acct.nonce = original
  nonce_back : ℕ → Undo
  -- acct.balance.Set(original)
  balance_back : ℕ → Undo
  -- acct.knownCodeDiff[acct.codeHash]--, and ++
  diff_down diff_up : Undo
  -- acct.codeHash = originalCodeHash; acct.knownCode = originalCode
  code_back : ℕ → Option (List ℕ) → Undo
  -- delete(acct.knownStorage, key)
  storage_delete : ℕ → Undo
  -- acct.knownStorage[key] = original
  storage_back : ℕ → ℕ → Undo
  -- acct.dirtyStorage = false
  clean_back : Undo
  -- acct.overriden = false; acct.knownStorage = original
  override_back : Map ℕ → Undo

unfoldable pub undo_one : Undo → Account → Account
undo_one version_back a = record a { version = decr64 a.version }
undo_one (nonce_back n) a = record a { nonce = n }
undo_one (balance_back b) a = record a { balance = b }
undo_one diff_down a = record a {
  known_code_diff = update a.known_code_diff a.code_hash (decr64 (a.known_code_diff a.code_hash));
}
undo_one diff_up a = record a {
  known_code_diff = update a.known_code_diff a.code_hash (incr64 (a.known_code_diff a.code_hash));
}
undo_one (code_back h c) a = record a { code_hash = h; known_code = c }
undo_one (storage_delete k) a = record a { known_storage = delete a.known_storage k }
undo_one (storage_back k v) a = record a { known_storage = put a.known_storage k v }
undo_one clean_back a = record a { dirty_storage = false }
undo_one (override_back m) a = record a { overriden = false; known_storage = m }

-- The closure is called.
unfoldable pub undo : List Undo → Account → Account
unfolding undo_one
undo [] a = a
undo (u ∷ us) a = undo us (undo_one u a)

abbrev pub not_existed : ℕ
not_existed = 0

abbrev pub updating : ℕ
updating = 1

abbrev pub being_deleted : ℕ
being_deleted = 2

-- newMutableAccountImplWithOverriden
unfoldable pub new_mutable_account :
    Layer → ℕ → AccountValue → Option (List ℕ) → Map ℕ → Bool → Account
new_mutable_account parent addr acct known_code known_storage overriden = record {
  parent = parent;
  addr = addr;
  nonce = acct.nonce;
  balance = acct.balance;
  code_hash = acct.code_hash;
  dirty_storage = acct.dirty_storage;
  version = acct.version;
  known_code = known_code;
  known_code_diff = λ h. 0;
  overriden = overriden;
  known_storage = known_storage;
}

unfoldable pub interpret_version : Account → ℕ
interpret_version a = a.version % 3

unfoldable pub has_self_destructed : Account → Bool
unfolding interpret_version
has_self_destructed a = interpret_version a == being_deleted

-- The version under which the layer is asked for a slot. `acct.version-1` does not wrap: the
-- version is 2 modulo 3 there.
unfoldable pub storage_version : Account → ℕ
unfolding interpret_version
storage_version a = if interpret_version a == being_deleted then decr64 a.version else a.version

-- What GetState reads of a slot that it has not seen.
unfoldable pub committed_state : Account → ℕ → ℕ
unfolding storage_version
committed_state a key =
    if a.overriden then 0 else a.parent.get_storage_by_version a.addr (storage_version a) key

-- GetState: the value, and the account with the value kept.
unfoldable pub get_state : Account → ℕ → ℕ × Account
unfolding committed_state
get_state a key =
    if a.dirty_storage
    then elim (a.known_storage key) [
      | none ↦ (
        committed_state a key,
        record a { known_storage = put a.known_storage key (committed_state a key) },
      )
      | some val ↦ (val, a)
    ]
    else (0, a)

module _ (lib : Library) where
  open lib use {empty_code_hash}

  unfoldable pub is_empty : Account → Bool
  is_empty a = a.nonce == 0 && (a.balance == 0 && a.code_hash == empty_code_hash)

  -- Exists
  unfoldable pub exists : Account → Bool → Bool
  unfolding interpret_version is_empty
  exists a is_eip158 =
      if interpret_version a == not_existed
      then false
      else if is_eip158
      then not (is_empty a)
      else true

  -- Code: the code, and the account with the code kept.
  unfoldable pub code : Account → List ℕ × Account
  code a = if a.code_hash == empty_code_hash then ([], a) else elim a.known_code [
    | none ↦
        let fetched = a.parent.get_code_by_hash a.code_hash in
        (fetched, record a { known_code = some fetched })
    | some c ↦ (c, a)
  ]
