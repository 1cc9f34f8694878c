-- ===== src/Worldstate/Mutable/SelfDestruct.antt =====
-- SelfDestruct6780 drops the closure of the account's SelfDestruct, so a revert does not bring the
-- account back.
use teler.Base.{
  ℕ, suc, ◌%◌, ◌^◌, ◌-◌, ◌<◌, ◌≡◌, refl, true, false, some, List, [], ◌∷◌, put, update, ==_refl,
  arith,
}
use teler.Worldstate.Account.Object.{Account, Undo, version_back, balance_back}
use teler.Worldstate.Account.Object
use teler.Worldstate.Account.Setters
use teler.Worldstate.Mutable.State.{State, Journal, nothing, read_account, load_account}
use teler.Worldstate.Mutable.Entries.{put_self}
use teler.Worldstate.Mutable.Accounts.{has_self_destructed, self_destruct6780}
use teler.Worldstate.Mutable.Snapshots.{
  snapshot, find_mark, revert_all, revert_to_snapshot, mark_last,
}

find_mark-mark_last :
    (id : ℕ) (js : List Journal)
    → (ks : List Journal) × (find_mark id (mark_last js id) ≡ some ([], ks))
unfolding find_mark
find_mark-mark_last id [] = (
  record { mark = update (update (λ i. false) id true) id false; revert = nothing } ∷ [],
  rw (==_refl id) refl,
)
find_mark-mark_last id (j ∷ js) =
    (record j { mark = update (update j.mark id true) id false } ∷ js, rw (==_refl id) refl)

has_self_destructed_lem :
    (s : State) (addr : ℕ) (a : Account)
    → s.dirty_accounts addr ≡ some a
    → has_self_destructed s addr ≡ Object.has_self_destructed a
unfolding has_self_destructed read_account
has_self_destructed_lem s addr a e = rw (e, read_account)

self_destruct6780_lem :
    (s : State) (addr : ℕ) (a : Account) (r : Account × List Undo)
    → s.dirty_accounts addr ≡ some a
    → s.new_contracts addr ≡ true
    → Setters.self_destruct a ≡ some r
    → self_destruct6780 s addr
      ≡ some (a.balance, true, record s { dirty_accounts = put s.dirty_accounts addr r.0 })
unfolding self_destruct6780 load_account read_account
self_destruct6780_lem s addr a r e n k = ground arith

destructed : Account → Account
destructed a = record a { balance = 0; version = suc a.version }

self_destruct_lem :
    (a : Account)
    → a.version % 3 ≡ 1
    → a.version < 2 ^ 64 - 2
    → (us : List Undo) × (Setters.self_destruct a ≡ some (destructed a, us))
unfolding Setters.self_destruct destructed
self_destruct_lem a v r = (version_back ∷ balance_back a.balance ∷ [], ground arith)

-- An account that exists, among the dirty ones and the contracts created in this transaction,
-- destructs itself by SelfDestruct6780 after a Snapshot: the revert to the snapshot goes through,
-- and the account, which had not self-destructed before, has after it.
pub self_destruct6780-revert :
    (s : State) (addr : ℕ) (a : Account)
    → s.dirty_accounts addr ≡ some a
    → a.version % 3 ≡ 1
    → a.version < 2 ^ 64 - 2
    → s.new_contracts addr ≡ true
    → (t v : State) × (self_destruct6780 (snapshot s).1 addr ≡ some (a.balance, true, t))
      × (revert_to_snapshot (snapshot s).0 t ≡ some v)
      × (has_self_destructed s addr ≡ false)
      × (has_self_destructed v addr ≡ true)
unfolding snapshot revert_to_snapshot Object.has_self_destructed destructed revert_all
self_destruct6780-revert s addr a e v r n =
    let m = (snapshot s).1 in
    let (us, killed) = self_destruct_lem a v r in
    let (ks, found) = find_mark-mark_last s.snapshot_id s.journals in
    let t : State = record m { dirty_accounts = put s.dirty_accounts addr (destructed a) } in
    let dead = put_self s.dirty_accounts addr (destructed a) in
    (
      t,
      record t { journals = ks },
      self_destruct6780_lem m addr a _ e n killed,
      rw (found, revert_to_snapshot) refl,
      rw (has_self_destructed_lem s addr a e) (ground arith),
      rw (has_self_destructed_lem (record t { journals = ks }) addr (destructed a) dead)
          (ground arith),
    )
