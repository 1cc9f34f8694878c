-- ===== src/Worldstate/Mutable/Extensions.antt =====
-- What an operation adds to the journal takes the operation back.
use teler.Worldstate.Mutable.Reverts.{
  SameState, IsSoundState, SameState-refl, Extends, Extends-trans, Extends-same,
}
use teler.Base.{
  ℕ, ◌≡◌, refl, false, none, some, List, [], ◌∷◌, put, delete, ap, arith, Option-cases, inl, inr,
}
use teler.Worldstate.Account.Object.{Account, Undo}
use teler.Worldstate.Account.Reverts.{Same, IsSound, Undoes}
use teler.Worldstate.Account.Soundness.{IsSound-Same}
use teler.Worldstate.Committed.{get_mutable_account}
use teler.Worldstate.Mutable.State.{
  State, Revert, unload, account, record_journal, read_account, load_account, keep_read, revert_one,
  change_dirty,
}
use teler.Worldstate.Mutable.Entries.{
  put-IsSound, put_self, change_dirty-SameEntry, delete-SameEntry, put-SameEntry,
}
use teler.Worldstate.Mutable.Accounts.{change_account}
use teler.Worldstate.Mutable.Snapshots.{revert_all}

pub SameState-record_journal :
    (t u : State) (r : Revert) → SameState (record_journal t r) u → SameState t u
unfolding record_journal
SameState-record_journal t u r h = record {
  fields = ground (arith, h.fields);
  accounts = h.accounts;
}

pub IsSoundState-record_journal :
    (t : State) (r : Revert) → IsSoundState t → IsSoundState (record_journal t r)
unfolding record_journal
IsSoundState-record_journal t r h = record { dirty = h.dirty; loads = h.loads }

-- One closure was recorded.
pub Extends-one :
    (s t : State) (r : Revert)
    → t.journals ≡ s.journals
    → t.snapshot_id ≡ s.snapshot_id
    → IsSoundState t
    → ((u : State) → SameState t u → (v : State) × (revert_one r u ≡ some v) × SameState s v)
    → Extends s (record_journal t r)
unfolding revert_all record_journal
Extends-one s t r j i sound back = record {
  added = record { mark = λ i. false; revert = r } ∷ [];
  stack = ap (λ js. record { mark = λ i. false; revert = r } ∷ js) j;
  unmarked = λ i. (refl, tt);
  same_id = i;
  sound = IsSoundState-record_journal t r sound;
  back = λ u h. let (v, ran, same) = back u (SameState-record_journal t u r h) in (v, rw ran, same);
}

-- Changing a loaded account.
pub Extends-change_account :
    (s : State) (addr : ℕ) (a : Account) (r : Account × List Undo)
    → IsSoundState s
    → s.dirty_accounts addr ≡ some a
    → IsSound r.0
    → Undoes a r
    → Extends s (change_account s addr r)
unfolding change_account revert_one
Extends-change_account s addr a (b, us) h e sound undoes =
    Extends-one s (record s { dirty_accounts = put s.dirty_accounts addr b }) (account addr us) refl
      refl (record { dirty = put-IsSound s.dirty_accounts addr b sound h.dirty; loads = h.loads })
      λ u same. (
        record u { dirty_accounts = change_dirty u.dirty_accounts addr us },
        refl,
        record {
          fields = ground (arith, same.fields);
          accounts =
              change_dirty-SameEntry s.dirty_accounts u.dirty_accounts addr a b us e undoes
                same.accounts;
        },
      )

-- The journal entry of a load.
pub Extends-fresh :
    (s : State) (addr : ℕ) (a : Account)
    → IsSoundState s
    → s.dirty_accounts addr ≡ none
    → IsSound a
    → Extends s
        (record_journal (record s { dirty_accounts = put s.dirty_accounts addr a }) (unload addr))
unfolding revert_one
Extends-fresh s addr a h e sound =
    Extends-one s (record s { dirty_accounts = put s.dirty_accounts addr a }) (unload addr) refl
      refl (record { dirty = put-IsSound s.dirty_accounts addr a sound h.dirty; loads = h.loads })
      λ u same. (
        record u { dirty_accounts = delete u.dirty_accounts addr },
        refl,
        record {
          fields = ground (arith, same.fields);
          accounts = delete-SameEntry s.dirty_accounts u.dirty_accounts addr a e same.accounts;
        },
      )

-- Loading an account: it is then there.
abbrev pub Loads : State → State → ℕ → Type 0
Loads s t addr = (a : Account) × (t.dirty_accounts addr ≡ some a) × Extends s t

pub load_account-Loads :
    (s : State) (addr : ℕ) → IsSoundState s → Loads s (load_account s addr) addr
unfolding load_account record_journal
load_account-Loads s addr h = elim (Option-cases (s.dirty_accounts addr)) [
  | inl e ↦
      rw (e, load_account)
        (
          get_mutable_account s.parent addr,
          put_self s.dirty_accounts addr _,
          Extends-fresh s addr _ h e (h.loads addr),
        )
  | inr (a, e) ↦ rw (e, load_account) (a, e, Extends-same s s refl refl h (SameState-refl s))
]

pub read_account_lem :
    (s : State) (addr : ℕ) (a : Account) → s.dirty_accounts addr ≡ some a → read_account s addr ≡ a
unfolding read_account
read_account_lem s addr a e = rw (e, read_account)

-- What was read of an account is kept.
pub Extends-keep_read :
    (s : State) (addr : ℕ) (b : Account)
    → IsSoundState s
    → Same (read_account s addr) b
    → Extends s (keep_read s addr b)
unfolding keep_read
Extends-keep_read s addr b h same = elim (Option-cases (s.dirty_accounts addr)) [
  | inl e ↦ rw (e, keep_read) (Extends-same s s refl refl h (SameState-refl s))
  | inr (a, e) ↦
      let like : Same a b = rw (read_account_lem s addr a e) at same in
      rw (e, keep_read)
        (Extends-same s (record s { dirty_accounts = put s.dirty_accounts addr b }) refl refl
          (record {
            dirty =
                put-IsSound s.dirty_accounts addr b (IsSound-Same a b like (h.dirty addr a e))
                  h.dirty;
            loads = h.loads;
          })
          (record {
            fields = ground arith;
            accounts = put-SameEntry s.dirty_accounts addr a b e like;
          }))
]

-- An account is loaded and changed.
pub Extends-loaded :
    (s : State) (addr : ℕ) (f : Account → Account × List Undo)
    → IsSoundState s
    → ((a : Account) → IsSound a → IsSound (f a).0 × Undoes a (f a))
    → Extends s
        (change_account (load_account s addr) addr (f (read_account (load_account s addr) addr)))
Extends-loaded s addr f h good =
    let (a, e, loaded) = load_account-Loads s addr h in
    let t = load_account s addr in
    let (sound, undoes) = good a (loaded.sound.dirty addr a e) in
    Extends-trans s t _ loaded (
      rw (read_account_lem t addr a e)
        (Extends-change_account t addr a (f a) loaded.sound e sound undoes))
