-- ===== src/Worldstate/Mutable/Atomicity.antt =====
-- A call that fails leaves no trace, however deep the calls in it: the revert to its snapshot goes
-- through, and the state then answers as it did at the snapshot.
use teler.Worldstate.Mutable.Marks.{
  unmark, find_mark-append, revert_all-journals, mark_last-Left, NoMark-append_right, Split-Runs,
  snapshot-Runs, Reverted, snapshot-SameState, unmark-NoMark,
}
use teler.Base.{
  ◌≡◌, refl, ap, ◌∙◌, subst, Bool, true, false, some, ◌∷◌, ◌++◌, if◌then◌else◌, >>=-eq-some, arith,
}
use teler.Types.{Library}
use teler.Worldstate.Mutable.State.{State}
use teler.Worldstate.Mutable.Snapshots.{snapshot, find_mark, revert_to_snapshot}
use teler.Worldstate.Mutable.Reverts.{SameState, SameState-refl, SameState-trans, IsSoundState}
use teler.Worldstate.Mutable.Observations.{Answers, SameState-Answers}
use teler.Worldstate.Mutable.Operations.{step, step-Extends}
use teler.Worldstate.Mutable.Calls.{
  Script, done, op, call, run, IsFresh, Runs, Runs-refl, Runs-Extends, Runs-trans,
}

module _ (s t : State) (f : IsFresh s) (h : IsSoundState s) (r : Runs (snapshot s).1 t) where
  revert-Reverted : Reverted s t
  unfolding snapshot revert_to_snapshot
  revert-Reverted =
      let id = s.snapshot_id in
      let l = mark_last-Left id s.journals r.lower r.kept in
      let u : State = record t { journals = unmark l.k id ∷ l.ks } in
      let stack : t.journals ≡ r.added ++ l.k ∷ l.ks = r.stack ∙ ap (λ js. r.added ++ js) l.split in
      let found : find_mark id t.journals ≡ some (r.added, unmark l.k id ∷ l.ks) =
        ap (find_mark id) stack
        ∙ find_mark-append id r.added l.k l.ks (r.unmarked id (omega arith)) l.marked in
      let like : SameState t u = record {
        fields = ground arith;
        accounts = (SameState-refl t).accounts;
      } in
      let (v, ran, same) = r.back u like in
      let (js, ids) = revert_all-journals r.added u v ran in
      let all = SameState-trans s (snapshot s).1 v (snapshot-SameState s) same in
      (
        v,
        rw (found, revert_to_snapshot) ran,
        all,
        Split-Runs s v (rw js l.left) (rw ids (omega (arith, r.later)))
            (λ i le. rw js (
              unmark-NoMark i id l.k l.ks (
                NoMark-append_right i r.added (l.k ∷ l.ks)
                  (rw stack at (r.fresh i (rw ids at le))))))
            h all,
      )

-- A call as its caller sees it, whether it fails or not.
call-Runs :
    (fails : Bool) (s t v : State)
    → IsFresh s
    → IsSoundState s
    → Runs (snapshot s).1 t
    → (if fails then revert_to_snapshot (snapshot s).0 t else some t) ≡ some v
    → Runs s v
unfolding snapshot
call-Runs true s t v f h r e =
    let (w, ran, same, whole) = revert-Reverted s t f h r in
    let v_is : w ≡ v = cc in subst (Runs s) v_is whole
call-Runs false s t v f h r e =
    let v_is : t ≡ v = cc in
    subst (Runs s) v_is (Runs-trans s (snapshot s).1 t (snapshot-Runs s f h) r)

-- Every script keeps the journal such that all it did can be taken back.
pub run-Runs :
    (lib : Library) (p : Script) (s t : State)
    → IsFresh s
    → IsSoundState s
    → run lib p s ≡ some t
    → Runs s t
unfolding run
run-Runs lib done s t f h e = subst (Runs s) (cc) (Runs-refl s f h)
run-Runs lib (op o rest) s t f h e =
    let (u, ran, goes) = >>=-eq-some (step lib o s) (run lib rest) e in
    let first = Runs-Extends s u f (step-Extends lib o s u h ran) in
    Runs-trans s u t first (run-Runs lib rest u t first.fresh first.sound goes)
run-Runs lib (call body fails rest) s t f h e =
    let m = (snapshot s).1 in
    let (u, ran, goes) = >>=-eq-some (run lib body m) _ e in
    let (v, ends, more) =
      >>=-eq-some (if fails then revert_to_snapshot (snapshot s).0 u else some u) (run lib rest)
        goes in
    let marked = snapshot-Runs s f h in
    let inner = run-Runs lib body m u marked.fresh marked.sound ran in
    let first = call-Runs fails s u v f h inner ends in
    Runs-trans s v t first (run-Runs lib rest v t first.fresh first.sound more)

-- From a sound state on which no snapshot from the next id on has been taken, whatever operations of
-- Op ran since a Snapshot without a panic, which are not SelfDestruct6780 and SetStorage, nested calls
-- with their own snapshots and reverts included: the RevertToSnapshot does not panic, and the state
-- then has the fields of before the Snapshot and accounts that answer as before it.
pub revert_to_snapshot-run :
    (lib : Library) (body : Script) (s t : State)
    → IsFresh s
    → IsSoundState s
    → run lib body (snapshot s).1 ≡ some t
    → (v : State) × (revert_to_snapshot (snapshot s).0 t ≡ some v) × SameState s v
unfolding snapshot
revert_to_snapshot-run lib body s t f h e =
    let marked = snapshot-Runs s f h in
    let (v, ran, same, r) =
      revert-Reverted s t f h (run-Runs lib body (snapshot s).1 t marked.fresh marked.sound e) in
    (v, ran, same)

-- From a sound state on which no snapshot from the next id on has been taken, a call that fails, and
-- whose body is of operations of Op, which are not SelfDestruct6780 and SetStorage, and does not panic:
-- the call does not panic either, and every query of Answers answers as before it, which are those on
-- accounts, code, slots, transient slots, the access list, refunds, logs and the transaction's index.
pub run-failed_call :
    (lib : Library) (body : Script) (s t : State)
    → IsFresh s
    → IsSoundState s
    → run lib body (snapshot s).1 ≡ some t
    → (v : State) × (run lib (call body true done) s ≡ some v) × Answers lib s v
unfolding run
run-failed_call lib body s t f h e =
    let (v, back, same) = revert_to_snapshot-run lib body s t f h e in
    (v, rw (e, back) refl, SameState-Answers lib s v h same)
