-- ===== src/Worldstate/Mutable/Marks.antt =====
-- The marks of the snapshots in the journal, and what a revert leaves of it.
use teler.Base.{
  ℕ, ◌+◌, ◌≤◌, ◌<◌, ◌≡◌, refl, ◌∙◌, true, false, Option, none, some, List, [], ◌∷◌, ◌++◌, update,
  >>=-eq-some, arith,
}
use teler.Worldstate.Account.Object.{Account}
use teler.Worldstate.Account.Reverts.{IsSound}
use teler.Worldstate.Account.Soundness.{IsSound-Same}
use teler.Worldstate.Mutable.State.{State, Journal, Revert, nothing, revert_one}
use teler.Worldstate.Mutable.Entries.{SameEntry}
use teler.Worldstate.Mutable.Snapshots.{
  mark_last, snapshot, find_mark, revert_all, revert_to_snapshot,
}
use teler.Worldstate.Mutable.Reverts.{
  SameState, SameState-refl, SameState-trans, IsSoundState, NoMark,
}
use teler.Worldstate.Mutable.Calls.{Kept, Kept-refl, Kept-trans, IsFresh, Runs}

abbrev pub unmark : Journal → ℕ → Journal
unmark j id = record j { mark = update j.mark id false }

pub find_mark-append :
    (id : ℕ) (xs : List Journal) (k : Journal) (ks : List Journal)
    → NoMark id xs
    → k.mark id ≡ true
    → find_mark id (xs ++ k ∷ ks) ≡ some (xs, unmark k id ∷ ks)
unfolding find_mark
find_mark-append id [] k ks h m = rw m
find_mark-append id (x ∷ xs) k ks (n, h) m = rw (n, find_mark-append id xs k ks h m)

-- The closures touch neither the journal nor the counter of the snapshots.
pub revert_one-journals :
    (r : Revert) (s t : State)
    → revert_one r s ≡ some t
    → (t.journals ≡ s.journals) × (t.snapshot_id ≡ s.snapshot_id)
unfolding revert_one
revert_one-journals nothing s t e = ground arith
revert_one-journals _ s t e = ground arith

pub revert_all-journals :
    (js : List Journal) (s t : State)
    → revert_all js s ≡ some t
    → (t.journals ≡ s.journals) × (t.snapshot_id ≡ s.snapshot_id)
unfolding revert_all
revert_all-journals [] s t e = ground arith
revert_all-journals (j ∷ js) s t e =
    let (u, ran, rest) = >>=-eq-some (revert_one j.revert s) (λ t. revert_all js t) e in
    let (a, b) = revert_one-journals j.revert s u ran in
    let (c, d) = revert_all-journals js u t rest in (c ∙ a, d ∙ b)

pub Kept-mono : (n m : ℕ) (js ks : List Journal) → n ≤ m → Kept m js ks → Kept n js ks
Kept-mono n m js ks h k = Kept-trans n m js js ks h (Kept-refl n js) k

-- A journal against the one before the snapshot `id`: on top there may be entries that do nothing.
pub record Split (id : ℕ) (js new : List Journal) : Type 0 where
  pub added : List Journal
  pub low : List Journal
  pub parts : new ≡ added ++ low
  pub kept : Kept id js low
  pub unmarked : (i : ℕ) → i < id → NoMark i added
  pub idle : (u : State) → revert_all added u ≡ some u

pub mark_last-Split : (id : ℕ) (js : List Journal) → Split id js (mark_last js id)
mark_last-Split id [] = record {
  added = mark_last [] id;
  low = [];
  parts = refl;
  kept = tt;
  unmarked = λ i lt. (ground arith, tt);
  idle = λ u. unfold revert_all revert_one in refl;
}
mark_last-Split id (j ∷ js) = record {
  added = [];
  low = mark_last (j ∷ js) id;
  parts = refl;
  kept = (refl, λ i lt. ground arith, Kept-refl id js);
  unmarked = λ i lt. tt;
  idle = λ u. unfold revert_all in refl;
}

-- What the revert to `id` leaves of the journal.
pub record Left (id : ℕ) (js lower : List Journal) : Type 0 where
  pub k : Journal
  pub ks : List Journal
  pub split : lower ≡ k ∷ ks
  pub marked : k.mark id ≡ true
  pub left : Split id js (unmark k id ∷ ks)

pub mark_last-Left :
    (id : ℕ) (js lower : List Journal) → Kept (id + 1) (mark_last js id) lower → Left id js lower
mark_last-Left id [] [] h = absurd h
mark_last-Left id [] (k ∷ []) (r, m, h) = record {
  k = k;
  ks = [];
  split = refl;
  marked = m id (omega arith) ∙ ground arith;
  left = record {
    added = unmark k id ∷ [];
    low = [];
    parts = refl;
    kept = tt;
    unmarked = λ i lt. (ground (arith, m i (omega arith)), tt);
    idle = λ u. unfold revert_all revert_one in (rw r);
  };
}
mark_last-Left id [] (k ∷ l ∷ ls) (r, m, h) = absurd h
mark_last-Left id (j ∷ js) [] h = absurd h
mark_last-Left id (j ∷ js) (k ∷ ks) (r, m, h) = record {
  k = k;
  ks = ks;
  split = refl;
  marked = m id (omega arith) ∙ ground arith;
  left = record {
    added = [];
    low = unmark k id ∷ ks;
    parts = refl;
    kept =
        (r, λ i lt. ground (arith, m i (omega arith)), Kept-mono id (id + 1) js ks (omega arith) h);
    unmarked = λ i lt. tt;
    idle = λ u. unfold revert_all in refl;
  };
}

pub NoMark-append_right : (i : ℕ) (xs ys : List Journal) → NoMark i (xs ++ ys) → NoMark i ys
NoMark-append_right i [] ys h = h
NoMark-append_right i (x ∷ xs) ys h = NoMark-append_right i xs ys h.1

pub entry-IsSound :
    (o : Option Account) (a : Account)
    → ((b : Account) → o ≡ some b → IsSound b)
    → SameEntry o (some a)
    → IsSound a
entry-IsSound none a h same = absurd same
entry-IsSound (some b) a h same = IsSound-Same b a same (h b refl)

pub IsSoundState-Same : (s t : State) → SameState s t → IsSoundState s → IsSoundState t
IsSoundState-Same s t same h = record {
  dirty = λ addr a e.
      entry-IsSound (s.dirty_accounts addr) a (h.dirty addr) (rw e at (same.accounts addr));
  loads = λ addr. rw same.fields.parent (h.loads addr);
}

-- A state with such a journal that answers as `s`.
pub Split-Runs :
    (s t : State)
    → Split s.snapshot_id s.journals t.journals
    → s.snapshot_id ≤ t.snapshot_id
    → IsFresh t
    → IsSoundState s
    → SameState s t
    → Runs s t
Split-Runs s t p le fresh h same = record {
  added = p.added;
  lower = p.low;
  stack = p.parts;
  kept = p.kept;
  unmarked = p.unmarked;
  later = le;
  fresh = fresh;
  sound = IsSoundState-Same s t same h;
  back = λ u like. (u, p.idle u, SameState-trans s t u same like);
}

pub mark_last-NoMark :
    (i id : ℕ) (js : List Journal) → id < i → NoMark i js → NoMark i (mark_last js id)
mark_last-NoMark i id [] lt h = (ground arith, tt)
mark_last-NoMark i id (j ∷ js) lt (m, h) = (ground arith, h)

pub snapshot-Runs : (s : State) → IsFresh s → IsSoundState s → Runs s (snapshot s).1
unfolding snapshot
snapshot-Runs s f h =
    Split-Runs s (snapshot s).1 (mark_last-Split s.snapshot_id s.journals) (omega arith)
      (λ i le. mark_last-NoMark i s.snapshot_id s.journals (omega arith) (f i (omega arith))) h
      (record { fields = ground arith; accounts = (SameState-refl s).accounts })

-- A revert of what ran after a snapshot.
abbrev pub Reverted : State → State → Type 0
Reverted s t =
    (v : State) × (revert_to_snapshot s.snapshot_id t ≡ some v) × SameState s v × Runs s v

pub snapshot-SameState : (s : State) → SameState s (snapshot s).1
unfolding snapshot
snapshot-SameState s = record { fields = ground arith; accounts = (SameState-refl s).accounts }

pub unmark-NoMark :
    (i id : ℕ) (k : Journal) (ks : List Journal) → NoMark i (k ∷ ks) → NoMark i (unmark k id ∷ ks)
unmark-NoMark i id k ks (m, h) = (ground arith, h)
