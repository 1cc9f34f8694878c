-- ===== src/Worldstate/Mutable/Calls.antt =====
-- The calls of the EVM: operations, and inner calls between a Snapshot and, where the call fails, a
-- RevertToSnapshot, nested to any depth.
use mathlib.Core.List.{append_assoc}
use teler.Base.{
  ℕ, ◌≤◌, ◌<◌, ◌≡◌, refl, sym, ap, ◌∙◌, Bool, Option, some, List, [], ◌∷◌, ◌++◌, if◌then◌else◌,
  ◌>>=◌, inl, inr, Option-cases, arith,
}
use teler.Types.{Library}
use teler.Worldstate.Mutable.State.{State, Journal, revert_one}
use teler.Worldstate.Mutable.Snapshots.{snapshot, revert_all, revert_to_snapshot}
use teler.Worldstate.Mutable.Reverts.{
  TakesBack, TakesBack-append, IsSoundState, NoMark, NoMark-append, Extends,
}
use teler.Worldstate.Mutable.Operations.{Op, step}

pub data Script : Type 0 where
  done : Script
  op : Op → Script → Script
  -- An inner call, whether it fails, and what the outer call does after it.
  call : Script → Bool → Script → Script

unfoldable pub run : Library → Script → State → Option State
unfolding snapshot
run lib done s = some s
run lib (op o rest) s = step lib o s >>= λ t. run lib rest t
run lib (call body fails rest) s =
    let (id, marked) = snapshot s in
    run lib body marked >>= λ t.
    (if fails then revert_to_snapshot id t else some t) >>= λ u. run lib rest u

-- The same closures, and the same marks of the snapshots below `n`.
abbrev pub Kept : ℕ → List Journal → List Journal → Type 0
Kept n [] [] = Unit {0}
Kept n (j ∷ js) (k ∷ ks) =
    (k.revert ≡ j.revert) × ((i : ℕ) → i < n → k.mark i ≡ j.mark i) × Kept n js ks
Kept n _ _ = ⊥

pub Kept-refl : (n : ℕ) (js : List Journal) → Kept n js js
Kept-refl n [] = tt
Kept-refl n (j ∷ js) = (refl, λ i h. refl, Kept-refl n js)

pub Kept-trans :
    (n m : ℕ) (js ks ls : List Journal) → n ≤ m → Kept n js ks → Kept m ks ls → Kept n js ls
Kept-trans n m [] [] [] h p q = tt
Kept-trans n m [] [] (l ∷ ls) h p q = q
Kept-trans n m [] (k ∷ ks) ls h p q = absurd p
Kept-trans n m (j ∷ js) [] ls h p q = absurd p
Kept-trans n m (j ∷ js) (k ∷ ks) [] h p q = q
Kept-trans n m (j ∷ js) (k ∷ ks) (l ∷ ls) h (p, pm, pr) (q, qm, qr) =
    (q ∙ p, λ i lt. qm i (omega arith) ∙ pm i lt, Kept-trans n m js ks ls h pr qr)

-- A journal that was kept splits where the old one did.
Kept-append :
    (n : ℕ) (xs ys ls : List Journal)
    → Kept n (xs ++ ys) ls
    → (above below : List Journal) × (ls ≡ above ++ below) × Kept n xs above × Kept n ys below
Kept-append n [] ys ls h = ([], ls, refl, tt, h)
Kept-append n (x ∷ xs) ys [] h = absurd h
Kept-append n (x ∷ xs) ys (l ∷ ls) (r, m, h) =
    let (a, b, e, p, q) = Kept-append n xs ys ls h in (l ∷ a, b, ap (λ t. l ∷ t) e, (r, m, p), q)

Kept-revert_all :
    (n : ℕ) (js ks : List Journal) (s : State) → Kept n js ks → revert_all ks s ≡ revert_all js s
unfolding revert_all
Kept-revert_all n [] [] s h = refl
Kept-revert_all n [] (k ∷ ks) s h = absurd h
Kept-revert_all n (j ∷ js) [] s h = absurd h
Kept-revert_all n (j ∷ js) (k ∷ ks) s (r, m, h) =
    rw r (elim (Option-cases (revert_one j.revert s)) [
      | inl e ↦ rw e
      | inr (t, e) ↦ rw e (Kept-revert_all n js ks t h)
    ])

Kept-NoMark : (n i : ℕ) (js ks : List Journal) → i < n → Kept n js ks → NoMark i js → NoMark i ks
Kept-NoMark n i [] [] lt h q = tt
Kept-NoMark n i [] (k ∷ ks) lt h q = absurd h
Kept-NoMark n i (j ∷ js) [] lt h q = absurd h
Kept-NoMark n i (j ∷ js) (k ∷ ks) lt (r, m, h) (q, qs) = (m i lt ∙ q, Kept-NoMark n i js ks lt h qs)

-- No snapshot from `n` on has been taken.
abbrev pub IsFresh : State → Type 0
IsFresh s = (i : ℕ) → s.snapshot_id ≤ i → NoMark i s.journals

-- `t` is `s` after a part of a script: what was there of the journal has its closures and its marks,
-- and what is above takes the changes back.
pub record Runs (s t : State) : Type 0 where
  pub added : List Journal
  pub lower : List Journal
  pub stack : t.journals ≡ added ++ lower
  pub kept : Kept s.snapshot_id s.journals lower
  pub unmarked : (i : ℕ) → i < s.snapshot_id → NoMark i added
  pub later : s.snapshot_id ≤ t.snapshot_id
  pub fresh : IsFresh t
  pub sound : IsSoundState t
  pub back : TakesBack added s t

pub Runs-refl : (s : State) → IsFresh s → IsSoundState s → Runs s s
unfolding revert_all
Runs-refl s f h = record {
  added = [];
  lower = s.journals;
  stack = refl;
  kept = Kept-refl s.snapshot_id s.journals;
  unmarked = λ i lt. tt;
  later = omega arith;
  fresh = f;
  sound = h;
  back = λ u same. (u, refl, same);
}

pub Runs-Extends : (s t : State) → IsFresh s → Extends s t → Runs s t
Runs-Extends s t f e = record {
  added = e.added;
  lower = s.journals;
  stack = e.stack;
  kept = Kept-refl s.snapshot_id s.journals;
  unmarked = λ i lt. e.unmarked i;
  later = rw e.same_id (omega arith);
  fresh = λ i le.
      rw e.stack (NoMark-append i e.added s.journals (e.unmarked i) (f i (rw e.same_id at le)));
  sound = e.sound;
  back = e.back;
}

pub Runs-trans : (s t u : State) → Runs s t → Runs t u → Runs s u
Runs-trans s t u p q =
    let (a, b, e, ka, kb) =
      Kept-append t.snapshot_id p.added p.lower q.lower (rw p.stack at q.kept) in
    record {
      added = q.added ++ a;
      lower = b;
      stack = q.stack ∙ ap (λ js. q.added ++ js) e ∙ sym (append_assoc q.added a b);
      kept = Kept-trans s.snapshot_id t.snapshot_id s.journals p.lower b p.later p.kept kb;
      unmarked = λ i lt.
          NoMark-append i q.added a (q.unmarked i (omega (arith, p.later)))
            (Kept-NoMark t.snapshot_id i p.added a (omega (arith, p.later)) ka (p.unmarked i lt));
      later = omega (arith, p.later, q.later);
      fresh = q.fresh;
      sound = q.sound;
      back =
          TakesBack-append q.added a s t u
            (λ w same. rw (Kept-revert_all t.snapshot_id p.added a w ka) (p.back w same)) q.back;
    }
