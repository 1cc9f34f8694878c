-- ===== src/Statestore/Answers.antt =====
-- PersistLayerLog as a whole: what the queries answer after it, and when it comes to its end.
use mathlib.Core.List.{Memᴰ}
use teler.Base.{
  ℕ, ◌^◌, ◌<◌, ◌≡◌, ◌≢◌, refl, sym, ap, ◌∙◌, subst, Option, none, some, List, get_or, add64, done,
  ◌and_then◌, and_then-eq-done, for_each-Kept, arith,
}
use teler.Types.{Library, AccountValue, LayerLog}
use teler.Statestore.{Store, get_account_value, get_storage_by_version}
use teler.Statestore.Persist.{
  persist_entry, persist_account, persist_accounts, persist_code, persist_codes, persist_storage,
  write_account, collect_old, persist_layer_log,
}
use teler.Statestore.Accounts.{IsHandedOver, persist_accounts-get_account_value}
use teler.Statestore.Codes.{IsCounted, IsCountedEntry, Moved, code_count, persist_codes-Moved}

-- The loops over accounts and over codes leave each other's sections, and the slots, alone.
persist_account-frame :
    (ds w w' : Store) (addr : ℕ) (v : AccountValue)
    → persist_account ds w addr v ≡ done w'
    → (w'.codes ≡ w.codes) × (w'.storage ≡ w.storage)
unfolding persist_account write_account collect_old
persist_account-frame ds w w' addr v r = (ground arith, ground arith)

persist_entry-frame :
    (ds w w' : Store) (addr : ℕ) (o : Option AccountValue)
    → persist_entry ds w addr o ≡ done w'
    → (w'.codes ≡ w.codes) × (w'.storage ≡ w.storage)
persist_entry-frame ds w w' addr none r = (ground arith, ground arith)
persist_entry-frame ds w w' addr (some v) r = persist_account-frame ds w w' addr v r

persist_code-frame :
    (ds w w' : Store) (log : LayerLog) (h : ℕ)
    → persist_code ds w log h ≡ done w'
    → (w'.account_values ≡ w.account_values)
      × (w'.account_versions ≡ w.account_versions)
      × (w'.storage ≡ w.storage)
      × (w'.gc ≡ w.gc)
unfolding persist_code
persist_code-frame ds w w' log h r = (ground arith, ground arith, ground arith, ground arith)

module _ (ds w w' : Store) (log : LayerLog) (accounts codes : List ℕ)
    (r : persist_layer_log ds w log accounts codes ≡ done w') where
  -- The steps that a call went through.
  pub persist_layer_log-steps :
      (u v : Store) × (persist_accounts ds accounts log.updated_accounts
          (record w { persisted = some (log.block_number, log.root_hash) })
        ≡ done u)
      × (persist_codes ds codes log u ≡ done v)
      × (w' ≡ persist_storage v log)
  unfolding persist_layer_log
  persist_layer_log-steps =
      let start = record w { persisted = some (log.block_number, log.root_hash) } in
      let visits = persist_accounts ds accounts log.updated_accounts start in
      let (v, both, last) =
        and_then-eq-done (visits and_then persist_codes ds codes log)
          (λ v. done (persist_storage v log)) r in
      let (u, first, second) = and_then-eq-done visits (persist_codes ds codes log) both in
      (u, v, first, second, ground arith)

  accounts-frame :
      (u : Store)
      → persist_accounts ds accounts log.updated_accounts
          (record w { persisted = some (log.block_number, log.root_hash) })
        ≡ done u
      → (u.codes ≡ w.codes) × (u.storage ≡ w.storage)
  unfolding persist_accounts
  accounts-frame u first =
      for_each-Kept (λ t a. persist_entry ds t a (log.updated_accounts a))
        (λ t. (t.codes ≡ w.codes) × (t.storage ≡ w.storage)) keeps accounts
        (record w { persisted = some (log.block_number, log.root_hash) }) u first (refl, refl)
    where
      keeps :
          (s t : Store) (a : ℕ)
          → persist_entry ds s a (log.updated_accounts a) ≡ done t
          → (s.codes ≡ w.codes) × (s.storage ≡ w.storage)
          → (t.codes ≡ w.codes) × (t.storage ≡ w.storage)
      keeps s t a step (codes_kept, storage_kept) =
          let (c, st) = persist_entry-frame ds s t a (log.updated_accounts a) step in
          (c ∙ codes_kept, st ∙ storage_kept)

  pub codes-frame :
      (u v : Store)
      → persist_codes ds codes log u ≡ done v
      → (v.account_values ≡ u.account_values)
        × (v.account_versions ≡ u.account_versions)
        × (v.storage ≡ u.storage)
        × (v.gc ≡ u.gc)
  unfolding persist_codes
  codes-frame u v second =
      for_each-Kept (λ t h. persist_code ds t log h)
        (λ t.
          (t.account_values ≡ u.account_values)
          × (t.account_versions ≡ u.account_versions)
          × (t.storage ≡ u.storage)
          × (t.gc ≡ u.gc))
        keeps codes u v second (refl, refl, refl, refl)
    where
      keeps :
          (s t : Store) (h : ℕ)
          → persist_code ds s log h ≡ done t
          → (s.account_values ≡ u.account_values)
            × (s.account_versions ≡ u.account_versions)
            × (s.storage ≡ u.storage)
            × (s.gc ≡ u.gc)
          → (t.account_values ≡ u.account_values)
            × (t.account_versions ≡ u.account_versions)
            × (t.storage ≡ u.storage)
            × (t.gc ≡ u.gc)
      keeps s t h step (a, b, c, d) =
          let (p, q, o, g) = persist_code-frame ds s t log h step in (p ∙ a, q ∙ b, o ∙ c, g ∙ d)

pub same_accounts :
    (lib : Library) (s t : Store) (addr : ℕ)
    → s.account_values ≡ t.account_values
    → s.account_versions ≡ t.account_versions
    → get_account_value lib s addr ≡ get_account_value lib t addr
unfolding get_account_value
same_accounts lib s t addr values versions =
    let at_values = ap (λ m. m addr) values in
    let at_versions = ap (λ m. m addr) versions in ground arith

slot_after :
    (v w : Store) (log : LayerLog) (addr version key : ℕ)
    → v.storage addr version key ≡ w.storage addr version key
    → get_storage_by_version (persist_storage v log) addr version key
      ≡ get_or (log.updated_storage addr version key) (get_storage_by_version w addr version key)
unfolding get_storage_by_version persist_storage
slot_after v w log addr version key e = ground arith

-- After PersistLayerLog the datastore answers for an account with what the log has, or else with what
-- it answered before the batch, and for each slot with what the log has, or else with what stood in
-- the batch. The log's accounts are handed over, the account is visited where the log has it, and the
-- batch has not written it before.
pub persist_layer_log-answers :
    (lib : Library) (ds w w' : Store) (log : LayerLog) (accounts codes : List ℕ) (addr : ℕ)
    → IsHandedOver lib (get_account_value lib ds) log.updated_accounts
    → ((v : AccountValue) → log.updated_accounts addr ≡ some v → Memᴰ addr accounts)
    → get_account_value lib w addr ≡ get_account_value lib ds addr
    → persist_layer_log ds w log accounts codes ≡ done w'
    → (get_account_value lib w' addr
        ≡ get_or (log.updated_accounts addr) (get_account_value lib ds addr))
      × ((version key : ℕ)
          → get_storage_by_version w' addr version key
            ≡ get_or
                (log.updated_storage addr version key)
                (get_storage_by_version w addr version key))
unfolding get_account_value get_storage_by_version persist_storage
persist_layer_log-answers lib ds w w' log accounts codes addr handed visited was r =
    let (u, v, first, second, is) = persist_layer_log-steps ds w w' log accounts codes r in
    let (codes_kept, storage_kept) = accounts-frame ds w w' log accounts codes r u first in
    let (values, versions, slots, marks) = codes-frame ds w w' log accounts codes r u v second in
    let here =
      persist_accounts-get_account_value lib ds log.updated_accounts handed addr accounts
        (record w { persisted = some (log.block_number, log.root_hash) }) u visited was first in
    (
      same_accounts lib w' u addr (ap (λ t. t.account_values) is ∙ values)
            (ap (λ t. t.account_versions) is ∙ versions)
          ∙ here,
      λ version key.
          ap (λ t. get_storage_by_version t addr version key) is
          ∙ slot_after v w log addr version key
              (ap (λ m. m addr version key) slots ∙ ap (λ m. m addr version key) storage_kept),
    )

-- After PersistLayerLog, in a batch that found counted codes and had not written any, the count of
-- each code has moved by the log's difference, as an int64, where the codes that differ are visited
-- and the difference is an int64; and what the datastore has is counted again.
pub persist_layer_log-code_count :
    (ds w w' : Store) (log : LayerLog) (accounts codes : List ℕ) (code_hash : ℕ)
    → IsCounted ds
    → w.codes ≡ ds.codes
    → log.updated_code_count code_hash < 2 ^ 64
    → (log.updated_code_count code_hash ≢ 0 → Memᴰ code_hash codes)
    → persist_layer_log ds w log accounts codes ≡ done w'
    → (code_count w' code_hash ≡ add64 (code_count ds code_hash) (log.updated_code_count code_hash))
      × IsCountedEntry (w'.codes code_hash)
unfolding persist_storage
persist_layer_log-code_count ds w w' log accounts codes h counted same bounded visited r =
    let (u, v, first, second, is) = persist_layer_log-steps ds w w' log accounts codes r in
    let (codes_kept, storage_kept) = accounts-frame ds w w' log accounts codes r u first in
    subst (λ t. Moved ds log counted h bounded (t.codes h)) (sym is)
      (persist_codes-Moved ds log counted h bounded codes u v visited
        (ap (λ m. m h) (codes_kept ∙ same)) second)
