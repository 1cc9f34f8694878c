-- ===== src/Worldstate/Account/Tests.antt =====
-- The theorems on accounts at concrete accounts.
use teler.Base.{
  ℕ, ◌+◌, ◌*◌, ◌/◌, ◌%◌, ◌^◌, ◌≤◌, ◌<◌, ◌≡◌, ◌≢◌, ◌⊎◌, refl, true, false, none, some, List, [], ◌∷◌,
  incr64, decr64, arith,
}
use teler.Worldstate.Samples.{
  sample_library, sample_account, sample_account-IsSound, dead_account, contract_account,
}
use teler.Worldstate.Account.Object.{Account, Undo, undo, version_back, balance_back, get_state}
use teler.Worldstate.Account.Setters.{set_state, self_destruct, set_code}
use teler.Worldstate.Account.Finalized.{get_finalized}
use teler.Worldstate.Account.Reverts.{slot}
use teler.Worldstate.Account.Soundness.{get_state_lem}
use teler.Worldstate.Account.Lifecycle.{Reach, here, next, state, destruct, get_finalized-version}
use teler.Worldstate.Account.CodeCount.{set_code-undo_diff, set_code-remove_diff}

abbrev written : Account
written = (set_state sample_account 1 2).0

abbrev destroyed : Account × List Undo
destroyed = (record written { balance = 0; version = 2 }, version_back ∷ balance_back 10 ∷ [])

written-destroyed : self_destruct written ≡ some destroyed
unfolding self_destruct set_state
written-destroyed = refl

life : Reach sample_library sample_account destroyed.0
life = next (next here (state 1 2)) (destruct destroyed written-destroyed)

get_finalized-version_example :
    let v = (get_finalized sample_library destroyed.0).final_state.version in
    (v % 3 ≢ 2) × (sample_account.version ≤ v) × (v ≤ 3 * (sample_account.version / 3) + 3)
get_finalized-version_example = get_finalized-version sample_library sample_account-IsSound life

get_state_lem_example :
    ((sample_account.dirty_storage ≡ true)
      × ((get_state sample_account 4).0 ≡ slot sample_account 4))
    ⊎ ((sample_account.dirty_storage ≡ false) × ((get_state sample_account 4).0 ≡ 0))
get_state_lem_example = get_state_lem sample_account 4 sample_account-IsSound

abbrev dead : Account × List Undo
dead = (dead_account, version_back ∷ balance_back 10 ∷ [])

dead_is : self_destruct sample_account ≡ some dead
unfolding self_destruct
dead_is = refl

abbrev coded : Account × List Undo
coded = elim (set_code sample_library sample_account (9 ∷ [])) [
  | none ↦ (sample_account, [])
  | some r ↦ r
]

coded_is : set_code sample_library sample_account (9 ∷ []) ≡ some coded
unfolding set_code
coded_is = refl

set_code-undo_diff_example : (undo coded.1 coded.0).known_code_diff ≡ sample_account.known_code_diff
set_code-undo_diff_example =
    set_code-undo_diff sample_library sample_account (9 ∷ []) coded small (λ e. cc) coded_is
  where
    small : (h : ℕ) → sample_account.known_code_diff h < 2 ^ 64
    small h = omega arith

abbrev bared : Account × List Undo
bared = elim (set_code sample_library contract_account []) [
  | none ↦ (contract_account, [])
  | some r ↦ r
]

bared_is : set_code sample_library contract_account [] ≡ some bared
unfolding set_code
bared_is = refl

set_code-remove_diff_example :
    ((undo bared.1 bared.0).known_code_diff 109 ≡ decr64 0)
    × ((undo bared.1 bared.0).known_code_diff 7 ≡ incr64 0)
    × ((undo bared.1 bared.0).code_hash ≡ 109)
set_code-remove_diff_example =
    set_code-remove_diff sample_library contract_account [] bared refl (λ e. cc) bared_is
