-- ===== src/Worldstate/Mutable/Snapshots.antt =====
-- worldstate/mutablestate_impl.go: snapshots, their reverts, and the end of a transaction.
use teler.Base.{
  ℕ, ◌+◌, Bool, true, false, ◌&&◌, Option, none, some, List, [], ◌∷◌, Map, empty, put, update,
  if◌then◌else◌, ◌>>=◌,
}
use teler.Types.{Library}
use teler.Worldstate.Account.Object.{Account}
use teler.Worldstate.Account.Object
use teler.Worldstate.Account.Setters
use teler.Worldstate.Committed.{apply_changes}
use teler.Worldstate.Mutable.State.{State, Journal, nothing, revert_one}

-- s.Journals[len(s.Journals)-1].mark[res] = true, after an entry is made if there is none.
abbrev pub mark_last : List Journal → ℕ → List Journal
mark_last [] id = record { mark = update (λ i. false) id true; revert = nothing } ∷ []
mark_last (j ∷ js) id = record j { mark = update j.mark id true } ∷ js

-- Snapshot
unfoldable pub snapshot : State → ℕ × State
snapshot s = (
  s.snapshot_id,
  record s { journals = mark_last s.journals s.snapshot_id; snapshot_id = s.snapshot_id + 1 },
)

-- The loop of RevertToSnapshot over the journal, newest first: the entries above the marked one,
-- and the journal from the marked one on, without the mark. `none` is the final panic.
unfoldable pub find_mark : ℕ → List Journal → Option (List Journal × List Journal)
find_mark id [] = none
find_mark id (j ∷ js) =
    let rest = find_mark id js >>= λ r. some (j ∷ r.0, r.1) in
    if j.mark id then some ([], record j { mark = update j.mark id false } ∷ js) else rest

-- The closures are called, newest first.
unfoldable pub revert_all : List Journal → State → Option State
revert_all [] s = some s
revert_all (j ∷ js) s = revert_one j.revert s >>= λ t. revert_all js t

-- RevertToSnapshot
unfoldable pub revert_to_snapshot : ℕ → State → Option State
unfolding find_mark revert_all
revert_to_snapshot id s =
    find_mark id s.journals >>= λ r. revert_all r.0 (record s { journals = r.1 })

module _ (lib : Library) where
  -- acct.SelfDestruct() for an empty account; `none` is its panic.
  unfoldable pub delete_empty : Bool → Account → Option Account
  delete_empty delete_empty_objects acct =
      if delete_empty_objects && Object.is_empty lib acct
      then (Setters.self_destruct acct >>= λ r. some r.0)
      else some acct

  abbrev pub put_deleted : Map Account → ℕ → Option Account → Bool → Option (Map Account)
  put_deleted dirty addr none b = some dirty
  put_deleted dirty addr (some acct) b =
      delete_empty b acct >>= λ deleted. some (put dirty addr deleted)

  -- The loop of Finalise, in the order of the list.
  unfoldable pub finalise_accounts : Map Account → List ℕ → Bool → Option (Map Account)
  unfolding delete_empty
  finalise_accounts dirty [] b = some dirty
  finalise_accounts dirty (addr ∷ rest) b =
      put_deleted dirty addr (dirty addr) b >>= λ m. finalise_accounts m rest b

  -- Finalise. The two lists are the orders in which Go visits the entries of DirtyAccounts.
  unfoldable pub finalise : State → List ℕ → List ℕ → Bool → Option State
  unfolding finalise_accounts
  finalise s order apply_order delete_empty_objects =
      finalise_accounts s.dirty_accounts order delete_empty_objects >>= λ dirty. some (record s {
        parent = apply_changes lib s.parent apply_order s.tx_hash s.logs dirty;
        dirty_accounts = empty;
        transient_state = empty;
        access_address = empty;
        access_storage = [];
        new_contracts = λ a. false;
        journals = [];
      })
