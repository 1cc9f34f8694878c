-- ===== src/Worldstate/Mutable/Accounts.antt =====
-- worldstate/mutablestate_impl.go: the queries and the changes of accounts.
use teler.Base.{
  ℕ, Bool, true, false, Option, none, some, List, Map, put, update, if◌then◌else◌, length, ◌>>=◌,
}
use teler.Types.{Library}
use teler.Worldstate.Account.Object.{Account, Undo}
use teler.Worldstate.Account.Object
use teler.Worldstate.Account.Setters
use teler.Worldstate.Committed.{get_mutable_account}
use teler.Worldstate.Mutable.State.{
  State, record_journal, read_account, load_account, keep_read, account, forget_contract,
}

-- The changed account is in DirtyAccounts, and its closure is recorded.
unfoldable pub change_account : State → ℕ → Account × List Undo → State
unfolding record_journal
change_account s addr (changed, us) =
    record_journal (record s { dirty_accounts = put s.dirty_accounts addr changed })
      (account addr us)

unfoldable pub change_account_if : State → ℕ → Option (Account × List Undo) → Option State
unfolding change_account
change_account_if s addr none = none
change_account_if s addr (some r) = some (change_account s addr r)

unfoldable pub get_balance : State → ℕ → ℕ
get_balance s addr = (read_account s addr).balance

unfoldable pub get_nonce : State → ℕ → ℕ
get_nonce s addr = (read_account s addr).nonce

unfoldable pub get_code_hash : State → ℕ → ℕ
get_code_hash s addr = (read_account s addr).code_hash

-- GetState: the value, and the state with what the account kept.
unfoldable pub get_state : State → ℕ → ℕ → ℕ × State
get_state s addr key =
    let (val, read) = Object.get_state (read_account s addr) key in (val, keep_read s addr read)

-- GetCommittedState reads an account loaded for the purpose.
unfoldable pub get_committed_state : State → ℕ → ℕ → ℕ
get_committed_state s addr key = (Object.get_state (get_mutable_account s.parent addr) key).0

unfoldable pub has_self_destructed : State → ℕ → Bool
has_self_destructed s addr = Object.has_self_destructed (read_account s addr)

-- CreateContract
unfoldable pub create_contract : State → ℕ → State
create_contract s addr =
    if s.new_contracts addr
    then s
    else record_journal (record s { new_contracts = update s.new_contracts addr true })
        (forget_contract addr)

-- SetBalance
unfoldable pub set_balance : State → ℕ → ℕ → State
unfolding change_account
set_balance s addr amt =
    let loaded = load_account s addr in
    change_account loaded addr (Setters.set_balance (read_account loaded addr) amt)

-- SetNonce
unfoldable pub set_nonce : State → ℕ → ℕ → State
unfolding change_account
set_nonce s addr nonce =
    let loaded = load_account s addr in
    change_account loaded addr (Setters.set_nonce (read_account loaded addr) nonce)

-- SetStorage
unfoldable pub set_storage : State → ℕ → Map ℕ → State
unfolding change_account
set_storage s addr storage =
    let loaded = load_account s addr in
    change_account loaded addr (Setters.override_storage (read_account loaded addr) storage)

-- SetState: the value before, and the new state. The slot is read first, which keeps it.
unfoldable pub set_state : State → ℕ → ℕ → ℕ → ℕ × State
unfolding change_account
set_state s addr key val =
    let loaded = load_account s addr in
    let (prev, read) = Object.get_state (read_account loaded addr) key in
    (prev, change_account loaded addr (Setters.set_state read key val))

-- SelfDestruct: the balance before, and the new state.
unfoldable pub self_destruct : State → ℕ → Option (ℕ × State)
unfolding change_account_if
self_destruct s addr =
    let loaded = load_account s addr in
    let acct = read_account loaded addr in
    change_account_if loaded addr (Setters.self_destruct acct) >>= λ t. some (acct.balance, t)

-- SelfDestruct6780: the closure of the account's SelfDestruct is dropped.
unfoldable pub self_destruct6780 : State → ℕ → Option (ℕ × Bool × State)
self_destruct6780 s addr =
    let loaded = load_account s addr in
    let acct = read_account loaded addr in
    if s.new_contracts addr
    then (Setters.self_destruct acct >>= λ r.
        some (
          acct.balance,
          true,
          record loaded { dirty_accounts = put loaded.dirty_accounts addr r.0 },
        ))
    else some (acct.balance, false, loaded)

module _ (lib : Library) where
  open lib use {uint256_add, uint256_sub, uint256_is_negative, is_eip158, empty_root_hash}

  -- Exist
  unfoldable pub exist : State → ℕ → Bool
  exist s addr = Object.exists lib (read_account s addr) (is_eip158 s.new_height)

  -- Empty
  unfoldable pub is_empty : State → ℕ → Bool
  is_empty s addr = Object.is_empty lib (read_account s addr)

  -- GetCode
  unfoldable pub get_code : State → ℕ → List ℕ × State
  get_code s addr =
      let (c, read) = Object.code lib (read_account s addr) in (c, keep_read s addr read)

  -- GetCodeSize
  unfoldable pub get_code_size : State → ℕ → ℕ × State
  unfolding get_code
  get_code_size s addr = let (c, t) = get_code s addr in (length c, t)

  -- GetStorageRoot; common.HexToHash("1") stands for a root that is not empty.
  unfoldable pub get_storage_root : State → ℕ → ℕ
  get_storage_root s addr = if (read_account s addr).dirty_storage then 1 else empty_root_hash

  -- CreateAccount
  unfoldable pub create_account : State → ℕ → Option State
  unfolding change_account_if
  create_account s addr =
      let loaded = load_account s addr in
      change_account_if loaded addr (Setters.create lib (read_account loaded addr))

  -- AddBalance: the balance before, and the new state.
  unfoldable pub add_balance : State → ℕ → ℕ → ℕ × State
  unfolding change_account
  add_balance s addr amt =
      let loaded = load_account s addr in
      let acct = read_account loaded addr in
      (
        acct.balance,
        change_account loaded addr (Setters.set_balance acct (uint256_add acct.balance amt)),
      )

  -- The difference, or 0 where its sign is negative.
  unfoldable pub reduced : ℕ → ℕ → ℕ
  reduced original amt =
      let new = uint256_sub original amt in if uint256_is_negative new then 0 else new

  -- SubBalance
  unfoldable pub sub_balance : State → ℕ → ℕ → ℕ × State
  unfolding change_account reduced
  sub_balance s addr amt =
      let loaded = load_account s addr in
      let acct = read_account loaded addr in
      (
        acct.balance,
        change_account loaded addr (Setters.set_balance acct (reduced acct.balance amt)),
      )

  -- SetCode: the code before, and the new state. The code is read first, which keeps it.
  unfoldable pub set_code : State → ℕ → List ℕ → Option (List ℕ × State)
  unfolding change_account_if
  set_code s addr new_code =
      let loaded = load_account s addr in
      let (prev, read) = Object.code lib (read_account loaded addr) in
      change_account_if loaded addr (Setters.set_code lib read new_code) >>= λ t. some (prev, t)
