-- ===== src/Statestore/Collect.antt =====
-- statestore/routine.go: the routine that clears the slots of versions that are gone, beside the
-- batches that write the datastore. A round asks for the entries that are marked and clears them one
-- by one; a batch may be committed in between.
pub mod Safe
use teler.Base.{
  ℕ, zero, suc, ◌+◌, ◌-◌, ◌≤◌, ◌<◌, ◌≡◌, ◌≢◌, refl, sym, ap, ◌∙◌, subst, Bool, true, false, Option,
  none, some, List, [], ◌∷◌, Map, update, if◌then◌else◌, ◌==◌, ==_iff, Bool-cases, Option-cases,
  ◌⊎◌, inl, inr, arith, done, for_each-Kept, for_each-After, for_each-Reached, and_then-eq-done,
}
use mathlib.Core.List.{Memᴰ}
use mathlib.Core.List.Memᴰ
use teler.Types.{AccountValue, LayerLog}
use teler.Statestore.{Store, get_storage_by_version}
use teler.Statestore.Versions.{
  IsForward, latest, latest-up, persist_accounts-version, persist_accounts-marks,
}
use teler.Statestore.Answers.{persist_layer_log-steps, codes-frame}
use teler.Statestore.Persist.{
  Error, committed_version, notify_gc, write_account, collect_old, persist_account, persist_entry,
  persist_accounts, persist_layer_log, persist_storage,
}

-- The batch of one entry: the slots of the version, and the mark.
unfoldable pub collect_one : Store → ℕ → ℕ → Store
collect_one s addr version = record s {
  storage = update s.storage addr (update (s.storage addr) version (λ key. none));
  gc = update s.gc addr (update (s.gc addr) version false);
}

-- The datastore, and the entries that the round has still to clear.
pub record Routine : Type 0 where
  pub ds : Store
  pub pending : List (ℕ × ℕ)

-- The next entry of the round.
unfoldable pub collect_next : Store → List (ℕ × ℕ) → Routine
unfolding collect_one
collect_next ds [] = record { ds = ds; pending = [] }
collect_next ds ((addr, version) ∷ rest) = record {
  ds = collect_one ds addr version;
  pending = rest;
}

-- What happens to the datastore: a round that asks for the marked entries, the batch of one entry,
-- an entry that is left because its batch failed, and the batch of a layer log.
pub data Step : Routine → Routine → Type 0 where
  query :
      (s : Routine) (found : List (ℕ × ℕ))
      → ((a i : ℕ) → Memᴰ (a, i) found → s.ds.gc a i ≡ true)
      → Step s (record s { pending = found })
  collected : (s : Routine) → Step s (collect_next s.ds s.pending)
  left :
      (s : Routine) (entry : ℕ × ℕ) (rest : List (ℕ × ℕ))
      → s.pending ≡ entry ∷ rest
      → Step s (record s { pending = rest })
  persisted :
      (s : Routine) (w ds : Store) (log : LayerLog) (accounts codes : List ℕ)
      → IsForward s.ds log.updated_accounts
      → ((a : ℕ) (v : AccountValue) → log.updated_accounts a ≡ some v → Memᴰ a accounts)
      → w.account_values ≡ s.ds.account_values
      → w.account_versions ≡ s.ds.account_versions
      → w.gc ≡ s.ds.gc
      → persist_layer_log s.ds w log accounts codes ≡ done ds
      → Step s (record s { ds = ds })
