-- ===== src/Worldstate/Mutable/Reverts.antt =====
-- Each operation of the state leaves on the journal what takes it back: calling the closures that it
-- recorded, newest first, gives a state that answers as the one before it.
use teler.Base.{
  ℕ, ◌≡◌, refl, false, some, List, [], ◌∷◌, ◌++◌, ap, ◌∙◌, arith, ◌>>=◌, Option-cases, inl, inr,
  sym,
}
use mathlib.Core.List.{append_assoc}
use teler.Worldstate.Account.Object.{Account}
use teler.Worldstate.Account.Reverts.{IsSound}
use teler.Worldstate.Committed.{get_mutable_account}
use teler.Worldstate.Mutable.State.{State, Journal, revert_one}
use teler.Worldstate.Mutable.Entries.{SameEntry, SameEntry-refl, SameEntry-trans}
use teler.Worldstate.Mutable.Snapshots.{revert_all}

pub record SameFields (s t : State) : Type 0 where
  pub new_height : t.new_height ≡ s.new_height
  pub parent : t.parent ≡ s.parent
  pub tx_hash : t.tx_hash ≡ s.tx_hash
  pub tx_idx : t.tx_idx ≡ s.tx_idx
  pub refund : t.refund ≡ s.refund
  pub logs : t.logs ≡ s.logs
  pub transient_state : t.transient_state ≡ s.transient_state
  pub access_address : t.access_address ≡ s.access_address
  pub access_storage : t.access_storage ≡ s.access_storage
  pub new_contracts : t.new_contracts ≡ s.new_contracts

-- Two states that answer alike: all but the journal is the same, and the accounts answer alike.
pub record SameState (s t : State) : Type 0 where
  pub fields : SameFields s t
  pub accounts : (addr : ℕ) → SameEntry (s.dirty_accounts addr) (t.dirty_accounts addr)

-- The entries undo the change from `s` to `t`, on every state that answers as `t`.
abbrev pub TakesBack : List Journal → State → State → Type 0
TakesBack js s t =
    (u : State) → SameState t u → (v : State) × (revert_all js u ≡ some v) × SameState s v

-- Every account that is in DirtyAccounts, or can be loaded, is sound.
pub record IsSoundState (s : State) : Type 0 where
  pub dirty : (addr : ℕ) (a : Account) → s.dirty_accounts addr ≡ some a → IsSound a
  pub loads : (addr : ℕ) → IsSound (get_mutable_account s.parent addr)

pub SameState-refl : (s : State) → SameState s s
SameState-refl s = record { fields = ground arith; accounts = λ addr. SameEntry-refl _ }

pub SameState-trans : (s t u : State) → SameState s t → SameState t u → SameState s u
SameState-trans s t u p q = record {
  fields = ground arith;
  accounts = λ addr. SameEntry-trans _ _ _ (p.accounts addr) (q.accounts addr);
}

-- No entry has the mark.
abbrev pub NoMark : ℕ → List Journal → Type 0
NoMark i [] = Unit {0}
NoMark i (j ∷ js) = (j.mark i ≡ false) × NoMark i js

-- `t` is `s` after changes whose closures are on top of the journal.
pub record Extends (s t : State) : Type 0 where
  pub added : List Journal
  pub stack : t.journals ≡ added ++ s.journals
  pub unmarked : (i : ℕ) → NoMark i added
  pub same_id : t.snapshot_id ≡ s.snapshot_id
  pub sound : IsSoundState t
  pub back : TakesBack added s t

pub NoMark-append : (i : ℕ) (xs ys : List Journal) → NoMark i xs → NoMark i ys → NoMark i (xs ++ ys)
NoMark-append i [] ys h k = k
NoMark-append i (x ∷ xs) ys h k = (h.0, NoMark-append i xs ys h.1 k)

pub revert_all-append :
    (xs ys : List Journal) (s : State)
    → revert_all (xs ++ ys) s ≡ (revert_all xs s >>= λ t. revert_all ys t)
unfolding revert_all
revert_all-append [] ys s = refl
revert_all-append (x ∷ xs) ys s = elim (Option-cases (revert_one x.revert s)) [
  | inl e ↦ rw e
  | inr (t, e) ↦ rw e (revert_all-append xs ys t)
]

pub TakesBack-append :
    (xs ys : List Journal) (s t u : State)
    → TakesBack ys s t
    → TakesBack xs t u
    → TakesBack (xs ++ ys) s u
TakesBack-append xs ys s t u p q w h =
    let (v, ran, same) = q w h in
    let (r, ran', same') = p v same in (r, revert_all-append xs ys w ∙ rw ran ran', same')

pub Extends-trans : (s t u : State) → Extends s t → Extends t u → Extends s u
Extends-trans s t u p q = record {
  added = q.added ++ p.added;
  stack =
      q.stack ∙ ap (λ js. q.added ++ js) p.stack ∙ sym (append_assoc q.added p.added s.journals);
  unmarked = λ i. NoMark-append i q.added p.added (q.unmarked i) (p.unmarked i);
  same_id = q.same_id ∙ p.same_id;
  sound = q.sound;
  back = TakesBack-append q.added p.added s t u p.back q.back;
}

-- Nothing was recorded, and the state answers as before.
pub Extends-same :
    (s t : State)
    → t.journals ≡ s.journals
    → t.snapshot_id ≡ s.snapshot_id
    → IsSoundState t
    → SameState s t
    → Extends s t
unfolding revert_all
Extends-same s t j i sound same = record {
  added = [];
  stack = j;
  unmarked = λ i. tt;
  same_id = i;
  sound = sound;
  back = λ u h. (u, refl, SameState-trans s t u same h);
}

-- The journal is no part of what a state answers.
