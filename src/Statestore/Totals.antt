-- ===== src/Statestore/Totals.antt =====
-- When PersistLayerLog comes to its end.
use teler.Base.{
  ℕ, ◌%◌, ◌≡◌, ◌≢◌, ◌∙◌, subst, false, Option, none, some, List, ◌==◌, add64, if-false, Bool-cases,
  Option-cases, inl, inr, arith, fail, done, and_then-done, done-otherwise, for_each-total,
}
use teler.Types.{AccountValue, LayerLog}
use teler.Statestore.{CodeValue, Store}
use teler.Statestore.Persist.{
  Error, is_negative, write_count, persist_code, persist_codes, persist_storage, persist_layer_log,
}
use teler.Statestore.Accounts.{persist_accounts-total}

-- The datastore can take the differences: a code that it does not have is not counted down and is in
-- the log, and a code that it has does not go below zero.
abbrev pub IsPayable : Store → LayerLog → Type 0
IsPayable ds log =
    (h : ℕ)
    → log.updated_code_count h ≢ 0
    → (ds.codes h ≡ none
        → (is_negative (log.updated_code_count h) ≡ false)
          × ((code : List ℕ) × (log.code_preimage h ≡ some code)))
      × ((v : CodeValue)
          → ds.codes h ≡ some v
          → is_negative (add64 v.count (log.updated_code_count h)) ≡ false)

write_count-new :
    (w : Store) (h diff : ℕ) (code : List ℕ)
    → is_negative diff ≡ false
    → (why : Error) → write_count w h diff (some code) none ≢ fail why
write_count-new w h diff code nonnegative why r = ground arith

write_count-known :
    (w : Store) (h diff : ℕ) (preimage : Option (List ℕ)) (v : CodeValue)
    → is_negative (add64 v.count diff) ≡ false
    → (why : Error) → write_count w h diff preimage (some v) ≢ fail why
write_count-known w h diff preimage v nonnegative why r = ground arith

module _ (ds : Store) (log : LayerLog) (payable : IsPayable ds log) where
  write_count-counted :
      (w : Store) (h : ℕ) (why : Error)
      → log.updated_code_count h ≢ 0
      → write_count w h (log.updated_code_count h) (log.code_preimage h) (ds.codes h) ≢ fail why
  write_count-counted w h why nonzero r = elim (Option-cases (ds.codes h)) [
    | inl is ↦
        let (nonnegative, (code, there)) = (payable h nonzero).0 is in
        write_count-new w h (log.updated_code_count h) code nonnegative why (
          subst (λ o. write_count w h (log.updated_code_count h) o none ≡ fail why) there
            (subst
              (λ o. write_count w h (log.updated_code_count h) (log.code_preimage h) o ≡ fail why)
              is r))
    | inr (v, is) ↦
        write_count-known w h (log.updated_code_count h) (log.code_preimage h) v
          ((payable h nonzero).1 v is) why
          (subst
            (λ o. write_count w h (log.updated_code_count h) (log.code_preimage h) o ≡ fail why) is
            r)
  ]

  persist_code-total : (w : Store) (h : ℕ) → (w' : Store) × (persist_code ds w log h ≡ done w')
  unfolding persist_code
  persist_code-total w h = done-otherwise (persist_code ds w log h) λ why r.
      elim (Bool-cases (log.updated_code_count h == 0)) [
        | inl z ↦ ground arith
        | inr z ↦
            write_count-counted w h why (λ e. ground arith)
              (if-false (log.updated_code_count h == 0) (done w)
                (write_count w h (log.updated_code_count h) (log.code_preimage h) (ds.codes h)) z r)
      ]

-- PersistLayerLog comes to its end, without an error and without the panic, where no account of the
-- log is being deleted and the datastore can take the differences of the log's code counts.
pub persist_layer_log-total :
    (ds w : Store) (log : LayerLog) (accounts codes : List ℕ)
    → ((a : ℕ) (v : AccountValue) → log.updated_accounts a ≡ some v → v.version % 3 ≢ 2)
    → IsPayable ds log
    → (w' : Store) × (persist_layer_log ds w log accounts codes ≡ done w')
unfolding persist_layer_log persist_codes
persist_layer_log-total ds w log accounts codes settled payable =
    let start = record w { persisted = some (log.block_number, log.root_hash) } in
    let (u, first) = persist_accounts-total ds log.updated_accounts accounts start settled in
    let (v, second) =
      for_each-total (λ t h. persist_code ds t log h) (persist_code-total ds log payable) codes u in
    (
      persist_storage v log,
      and_then-done (λ t. done (persist_storage t log))
          (and_then-done (persist_codes ds codes log) first ∙ second),
    )
