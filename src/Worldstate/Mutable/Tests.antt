-- ===== src/Worldstate/Mutable/Tests.antt =====
-- The theorems on the mutable state at concrete states.
use teler.Base.{◌≡◌, refl, true, false, none, some, [], ◌∷◌, put, update, arith}
use teler.Worldstate.Samples.{
  sample_library, sample_account, sample_state, sample_state-IsFresh, sample_state-IsSoundState,
}
use teler.Worldstate.Account.Object.{code, new_mutable_account}
use teler.Worldstate.Account.Setters
use teler.Worldstate.Committed.{get_mutable_account, new_temp_committed}
use teler.Worldstate.Mutable.Accounts
use teler.Worldstate.Mutable.Transaction
use teler.Worldstate.Mutable.State.{
  State, new_mutable_world_state, load_account, read_account, revert_one,
}
use teler.Worldstate.Mutable.Accounts.{has_self_destructed, self_destruct6780}
use teler.Worldstate.Mutable.Snapshots.{snapshot, revert_to_snapshot}
use teler.Worldstate.Mutable.Reverts.{SameState}
use teler.Worldstate.Mutable.Operations.{
  set_state, set_nonce, add_refund, set_code, add_slot_to_access_list, step,
}
use teler.Worldstate.Mutable.Calls.{Script, done, op, call, run}
use teler.Worldstate.Mutable.Observations.{Answers}
use teler.Worldstate.Mutable.Atomicity.{revert_to_snapshot-run, run-failed_call}
use teler.Worldstate.Mutable.SelfDestruct.{self_destruct6780-revert}

-- A write, an inner call that fails, and more writes.
abbrev body : Script
body = op (set_state 3 1 2) (
    call (op (add_refund 5) (op (add_slot_to_access_list 3 1) done)) true
      (op (set_nonce 4 1) (op (set_code 4 (9 ∷ [])) done)))

abbrev ran : State
ran = elim (run sample_library body (snapshot sample_state).1) [ none ↦ sample_state | some t ↦ t ]

ran_is : run sample_library body (snapshot sample_state).1 ≡ some ran
unfolding run step snapshot revert_to_snapshot revert_one load_account read_account
    new_mutable_world_state get_mutable_account new_mutable_account new_temp_committed
    Transaction.add_slot_to_access_list Transaction.add_refund Accounts.set_state Accounts.set_nonce
    Accounts.set_code Setters.set_code Setters.set_nonce code
ran_is = refl

revert_to_snapshot-run_example :
    (v : State) × (revert_to_snapshot (snapshot sample_state).0 ran ≡ some v)
    × SameState sample_state v
revert_to_snapshot-run_example =
    revert_to_snapshot-run sample_library body sample_state ran sample_state-IsFresh
      sample_state-IsSoundState ran_is

run-failed_call_example :
    (v : State) × (run sample_library (call body true done) sample_state ≡ some v)
    × Answers sample_library sample_state v
run-failed_call_example =
    run-failed_call sample_library body sample_state ran sample_state-IsFresh
      sample_state-IsSoundState ran_is

-- A contract that was created in this transaction.
abbrev creating : State
creating = record sample_state {
  dirty_accounts = put sample_state.dirty_accounts 3 sample_account;
  new_contracts = update sample_state.new_contracts 3 true;
}

self_destruct6780-revert_example :
    (t v : State) × (self_destruct6780 (snapshot creating).1 3 ≡ some (10, true, t))
    × (revert_to_snapshot (snapshot creating).0 t ≡ some v)
    × (has_self_destructed creating 3 ≡ false)
    × (has_self_destructed v 3 ≡ true)
self_destruct6780-revert_example =
    self_destruct6780-revert creating 3 sample_account refl refl (omega arith) refl
