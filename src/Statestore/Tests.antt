-- ===== src/Statestore/Tests.antt =====
-- The theorems on PersistLayerLog and on the routine at concrete datastores.
use mathlib.Core.List.{Memᴰ}
use mathlib.Core.List.Memᴰ
use teler.Base.{
  List, ℕ, ◌≡◌, ◌≤◌, inl, inr, sym, subst, refl, true, [], ◌∷◌, empty, put, get_or, add64, done,
  arith,
}
use teler.Worldstate.Samples.{sample_library}
use teler.Statestore.{Store, get_account_value, get_storage_by_version}
use teler.Statestore.Persist.{
  persist_layer_log, committed_version, persist_account, persist_accounts, persist_code,
  persist_codes,
}
use teler.Statestore.Codes.{IsCountedEntry, code_count}
use teler.Statestore.Versions.{IsForward}
use teler.Statestore.Collect.{Routine, Step, collect_next}
use teler.Statestore.Collect.Safe.{IsSafe, Run, collect_next-get_storage_by_version}
use teler.Statestore.Genesis.{GenesisAccount}
use teler.Statestore.Answers.{persist_layer_log-answers, persist_layer_log-code_count}
use teler.Statestore.Totals.{IsPayable, persist_layer_log-total}
use teler.Statestore.Samples.{
  account, before, sample_log, after_batch, sample-IsHandedOver, sample-IsVisited, before-IsCounted,
}

abbrev after : Store
after = after_batch (persist_layer_log before before sample_log (3 ∷ []) (104 ∷ []))

persisted-done : persist_layer_log before before sample_log (3 ∷ []) (104 ∷ []) ≡ done after
unfolding persist_layer_log persist_accounts persist_codes persist_account persist_code
persisted-done = refl

persist_layer_log-answers_example :
    (get_account_value sample_library after 3
      ≡ get_or (sample_log.updated_accounts 3) (get_account_value sample_library before 3))
    × ((version key : ℕ)
        → get_storage_by_version after 3 version key
          ≡ get_or
              (sample_log.updated_storage 3 version key)
              (get_storage_by_version before 3 version key))
persist_layer_log-answers_example =
    persist_layer_log-answers sample_library before before after sample_log (3 ∷ []) (104 ∷ []) 3
      sample-IsHandedOver (sample-IsVisited 3) refl persisted-done

persist_layer_log-code_count_example :
    (code_count after 104 ≡ add64 (code_count before 104) (sample_log.updated_code_count 104))
    × IsCountedEntry (after.codes 104)
persist_layer_log-code_count_example =
    persist_layer_log-code_count before before after sample_log (3 ∷ []) (104 ∷ []) 104
      before-IsCounted refl (omega arith) (λ e. Memᴰ.head refl) persisted-done

sample-IsPayable : IsPayable before sample_log
sample-IsPayable h e = (λ z. absurd (ground arith), λ v is. ground arith)

persist_layer_log-total_example :
    (w' : Store) × (persist_layer_log before before sample_log (3 ∷ []) (104 ∷ []) ≡ done w')
persist_layer_log-total_example =
    persist_layer_log-total before before sample_log (3 ∷ []) (104 ∷ []) sample-IsHandedOver.settled
      sample-IsPayable

-- The batch marks the version before, and a round finds the mark.
abbrev start : Routine
start = record { ds = before; pending = [] }

abbrev marked : Routine
marked = record { ds = after; pending = (3, 1) ∷ [] }

start-IsSafe : IsSafe start
start-IsSafe = (λ a i m. absurd (ground arith), λ a i m. absurd (Memᴰ.not-nil m))

sample-IsForward : IsForward before (put empty 3 (account 4))
unfolding committed_version
sample-IsForward a v e nonzero = ground arith

one-marked : (a i : ℕ) → Memᴰ {A = ℕ × ℕ} (a, i) ((3, 1) ∷ []) → after.gc a i ≡ true
unfolding persist_layer_log persist_accounts persist_codes persist_account persist_code
one-marked a i m = elim (Memᴰ.cases_cons m) [
  | inl e ↦ subst (λ p. after.gc p.0 p.1 ≡ true) (sym e) refl
  | inr later ↦ absurd (Memᴰ.not-nil later)
]

start-marked : Run start marked
start-marked =
    Run.next start (record { ds = after; pending = [] }) marked
      (Step.persisted start before after sample_log (3 ∷ []) (104 ∷ []) sample-IsForward
        sample-IsVisited refl refl refl persisted-done)
      (Run.next (record { ds = after; pending = [] }) marked marked
        (Step.query (record { ds = after; pending = [] }) ((3, 1) ∷ []) one-marked)
        (Run.stop marked))

current : committed_version after 3 ≤ 4
unfolding persist_layer_log persist_accounts persist_codes persist_account persist_code
    committed_version
current = omega arith

collect_next-get_storage_by_version_example :
    get_storage_by_version (collect_next after ((3, 1) ∷ [])).ds 3 4 5
    ≡ get_storage_by_version after 3 4 5
collect_next-get_storage_by_version_example =
    collect_next-get_storage_by_version start marked 3 4 5 start-IsSafe start-marked current

abbrev alloc : List (ℕ × GenesisAccount)
alloc = (3, record { nonce = 1; balance = 20; code = 4 ∷ []; storage = (5, 6) ∷ [] }) ∷ []
