-- ===== src/Worldstate/Mutable/State.antt =====
-- worldstate/mutablestate_impl.go: the record mutableStateImpl, its journal, and loadAccount.
use teler.Base.{
  ℕ, ◌-◌, ◌^◌, Bool, false, Option, none, some, List, [], ◌∷◌, Map, empty, put, delete, update,
  get_elem?, set, drop_last,
}
use teler.Worldstate.Layer.{Layer}
use teler.Worldstate.Account.Object.{Account, Undo, undo}
use teler.Worldstate.Committed.{Committed, Log, new_temp_committed, get_mutable_account}

-- A revert closure. One that holds a pointer, to an account or to the transient slots of an
-- address, holds the address here: the entry under which the object was put into its map stands
-- below in the journal, so while the closure can still run the map has that object.
pub data Revert : Type 0 where
  -- func() {}
  nothing : Revert
  -- delete(s.DirtyAccounts, addr)
  unload : ℕ → Revert
  -- a closure of an account
  account : ℕ → List Undo → Revert
  -- delete(s.NewContracts, addr)
  forget_contract : ℕ → Revert
  -- s.Refund = original
  refund_back : ℕ → Revert
  -- delete(s.TransientState, addr)
  forget_transient : ℕ → Revert
  -- storageMap[key] = original
  transient_back : ℕ → ℕ → ℕ → Revert
  -- delete(storageMap, key)
  transient_delete : ℕ → ℕ → Revert
  -- delete(s.AccessAddress, addr)
  forget_address : ℕ → Revert
  -- the last slot set is dropped, and the address is deleted
  drop_slots : ℕ → Revert
  -- the last slot set is dropped, and the address has -1 again
  bare_address : ℕ → Revert
  -- delete(s.AccessStorage[idx], slot)
  forget_slot : ℕ → ℕ → Revert
  -- s.Logs = s.Logs[:len(s.Logs)-1]
  drop_log : Revert

-- journal
pub record Journal : Type 0 where
  pub mark : ℕ → Bool
  pub revert : Revert

-- mutableStateImpl. The id of the next snapshot is an int in Go, taken not to overflow: it goes up by
-- one with each snapshot. The journal has its newest entry first. In AccessAddress `none` is -1. The
-- transaction index is the bit pattern of Go's int. The hooks of a tracer are not modelled: they
-- are told of changes and make none.
pub record State : Type 0 where
  pub new_height : ℕ
  pub parent : Committed
  pub tx_hash : ℕ
  pub tx_idx : ℕ
  pub refund : ℕ
  pub logs : List Log
  pub dirty_accounts : Map Account
  pub transient_state : Map (Map ℕ)
  pub access_address : Map (Option ℕ)
  pub access_storage : List (ℕ → Bool)
  pub new_contracts : ℕ → Bool
  pub journals : List Journal
  pub snapshot_id : ℕ

-- newMutableWorldState
unfoldable pub new_mutable_world_state : Layer → ℕ → State
new_mutable_world_state parent new_height = record {
  new_height = new_height;
  parent = new_temp_committed parent new_height;
  tx_hash = 0;
  tx_idx = 2 ^ 64 - 1;
  refund = 0;
  logs = [];
  dirty_accounts = empty;
  transient_state = empty;
  access_address = empty;
  access_storage = [];
  new_contracts = λ a. false;
  journals = [];
  snapshot_id = 0;
}

-- recordJournal
unfoldable pub record_journal : State → Revert → State
record_journal s r = record s { journals = record { mark = λ i. false; revert = r } ∷ s.journals }

-- loadAccount(addr, false)
unfoldable pub read_account : State → ℕ → Account
read_account s addr = elim (s.dirty_accounts addr) [
  | none ↦ get_mutable_account s.parent addr
  | some acct ↦ acct
]

-- loadAccount(addr, true): the account is then in DirtyAccounts.
unfoldable pub load_account : State → ℕ → State
unfolding record_journal
load_account s addr = elim (s.dirty_accounts addr) [
  | none ↦
      record_journal
        (record s {
          dirty_accounts = put s.dirty_accounts addr (get_mutable_account s.parent addr);
        })
        (unload addr)
  | some acct ↦ s
]

-- What an account keeps when it is read stays with an account of DirtyAccounts, and is lost with
-- one that was loaded for the read.
unfoldable pub keep_read : State → ℕ → Account → State
keep_read s addr read = elim (s.dirty_accounts addr) [
  | none ↦ s
  | some acct ↦ record s { dirty_accounts = put s.dirty_accounts addr read }
]

abbrev pub change_dirty : Map Account → ℕ → List Undo → Map Account
change_dirty m addr us a = elim (m addr) [ none ↦ m a | some acct ↦ put m addr (undo us acct) a ]

abbrev pub change_transient : Map (Map ℕ) → ℕ → (Map ℕ → Map ℕ) → Map (Map ℕ)
change_transient m addr f a = elim (m addr) [ none ↦ m a | some slots ↦ put m addr (f slots) a ]

abbrev pub change_slots : List (ℕ → Bool) → ℕ → ℕ → Option (ℕ → Bool) → Option (List (ℕ → Bool))
change_slots l idx slot none = none
change_slots l idx slot (some slots) = some (set l idx (update slots slot false))

abbrev pub drop_slot_set : List (ℕ → Bool) → Option (List (ℕ → Bool))
drop_slot_set [] = none
drop_slot_set (x ∷ xs) = some (drop_last (x ∷ xs))

-- A closure is called; `none` is the panic of an index or a slice out of range.
unfoldable pub revert_one : Revert → State → Option State
revert_one nothing s = some s
revert_one (unload addr) s = some (record s { dirty_accounts = delete s.dirty_accounts addr })
revert_one (account addr us) s =
    some (record s { dirty_accounts = change_dirty s.dirty_accounts addr us })
revert_one (forget_contract addr) s =
    some (record s { new_contracts = update s.new_contracts addr false })
revert_one (refund_back gas) s = some (record s { refund = gas })
revert_one (forget_transient addr) s =
    some (record s { transient_state = delete s.transient_state addr })
revert_one (transient_back addr key val) s =
    some
      (record s { transient_state = change_transient s.transient_state addr (λ m. put m key val) })
revert_one (transient_delete addr key) s =
    some
      (record s { transient_state = change_transient s.transient_state addr (λ m. delete m key) })
revert_one (forget_address addr) s =
    some (record s { access_address = delete s.access_address addr })
revert_one (drop_slots addr) s = elim (drop_slot_set s.access_storage) [
  | none ↦ none
  | some l ↦ some (record s { access_storage = l; access_address = delete s.access_address addr })
]
revert_one (bare_address addr) s = elim (drop_slot_set s.access_storage) [
  | none ↦ none
  | some l ↦ some (record s { access_storage = l; access_address = put s.access_address addr none })
]
revert_one (forget_slot idx slot) s =
    elim (change_slots s.access_storage idx slot (get_elem? s.access_storage idx)) [
      | none ↦ none
      | some l ↦ some (record s { access_storage = l })
    ]
revert_one drop_log s = elim s.logs [
  | [] ↦ none
  | l ∷ ls ↦ some (record s { logs = drop_last (l ∷ ls) })
]
