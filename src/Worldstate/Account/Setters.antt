-- ===== src/Worldstate/Account/Setters.antt =====
-- worldstate/mutableaccount_impl.go: the setters. Each hands back the closure that
-- undoes it, as the list of the closure's statements.
use teler.Base.{
  ℕ, true, Option, none, some, List, [], ◌∷◌, ◌++◌, Map, put, update, ◌==◌, if◌then◌else◌, incr64,
  decr64,
}
use teler.Types.{Library}
use teler.Worldstate.Account.Object.{
  Account, Undo, version_back, nonce_back, balance_back, diff_down, diff_up, code_back,
  storage_delete, storage_back, clean_back, override_back, not_existed, updating, being_deleted,
  interpret_version, is_empty,
}

unfoldable pub override_storage : Account → Map ℕ → Account × List Undo
override_storage a storage =
    (record a { overriden = true; known_storage = storage }, override_back a.known_storage ∷ [])

-- Whether a setter first makes the account exist, and what its closure then begins with.
unfoldable pub touch : Account → Account × List Undo
unfolding interpret_version
touch a =
    if interpret_version a == not_existed
    then (record a { version = incr64 a.version }, version_back ∷ [])
    else (a, [])

unfoldable pub set_nonce : Account → ℕ → Account × List Undo
unfolding touch
set_nonce a nonce =
    let (b, optional_revert) = touch a in
    (
      record b { nonce = nonce },
      if a.nonce == nonce then optional_revert else optional_revert ++ nonce_back a.nonce ∷ [],
    )

unfoldable pub set_balance : Account → ℕ → Account × List Undo
unfolding touch
set_balance a balance =
    let (b, optional_revert) = touch a in
    (
      record b { balance = balance },
      if a.balance == balance
          then optional_revert
          else optional_revert ++ balance_back a.balance ∷ [],
    )

unfoldable pub set_state : Account → ℕ → ℕ → Account × List Undo
unfolding touch
set_state a key val =
    let (b, optional_revert) = touch a in
    (
      record b { dirty_storage = true; known_storage = put a.known_storage key val },
      if a.dirty_storage
          then elim (a.known_storage key) [
            | none ↦ optional_revert ++ storage_delete key ∷ []
            | some original ↦
                if original == val
                then optional_revert
                else optional_revert ++ storage_back key original ∷ []
          ]
          else optional_revert ++ clean_back ∷ storage_delete key ∷ [],
    )

-- SelfDestruct; `none` is the panic on an account that does not exist.
unfoldable pub self_destruct : Account → Option (Account × List Undo)
unfolding interpret_version
self_destruct a =
    if interpret_version a == being_deleted
    then some (a, [])
    else if interpret_version a == not_existed
    then none
    else some (
      record a { balance = 0; version = incr64 a.version },
      version_back ∷ balance_back a.balance ∷ [],
    )

module _ (lib : Library) where
  open lib use {keccak256_hash, empty_code_hash}

  -- Create; `none` is one of the two panics.
  unfoldable pub create : Account → Option (Account × List Undo)
  unfolding interpret_version is_empty
  create a =
      if interpret_version a == being_deleted
      then none
      else if interpret_version a == updating
      then (if is_empty lib a then some (a, []) else none)
      else some (record a { version = incr64 a.version }, version_back ∷ [])

  -- The change of knownCodeDiff in SetCode, and the second part of the closure; `none` is the
  -- panic on code that replaces other code.
  unfoldable pub count_code : Account → ℕ → Option ((ℕ → ℕ) × List Undo)
  count_code a hash =
      let diff = a.known_code_diff in
      if a.code_hash == empty_code_hash
      then some (update diff hash (incr64 (diff hash)), diff_down ∷ [])
      else if hash == empty_code_hash
      then some (update diff a.code_hash (decr64 (diff a.code_hash)), diff_up ∷ [])
      else none

  unfoldable pub set_code : Account → List ℕ → Option (Account × List Undo)
  unfolding touch count_code
  set_code a new_code =
      let (b, optional_revert) = touch a in
      let hash = keccak256_hash new_code in
      if a.code_hash == hash then some (b, optional_revert) else elim (count_code a hash) [
        | none ↦ none
        | some (diff, optional_revert2) ↦ some (
          record b { code_hash = hash; known_code_diff = diff; known_code = some new_code },
          optional_revert ++ optional_revert2 ++ code_back a.code_hash a.known_code ∷ [],
        )
      ]
