-- ===== src/Statestore/Persist.antt =====
-- statestore/txn.go: what a batch writes. The datastore is read as it was before the batch: `ds` has
-- what it holds, and `written` has the writes of the batch over it.
use teler.Base.{
  ℕ, zero, suc, ◌+◌, ◌-◌, ◌%◌, ◌^◌, Bool, true, Option, none, some, List, Map, put, delete, update,
  ◌==◌, ltb, leb, if◌then◌else◌, add64, Outcome, fail, done, ◌and_then◌, for_each,
}
use teler.Types.{AccountValue, LayerLog}
use teler.Statestore.{CodeValue, Store}

pub data Error : Type 0 where
  -- log.Panicf: an account that is being deleted
  panic : Error
  -- the three errors on codes
  no_code no_preimage negative_count : Error

-- The version under which the account stands in the datastore, 0 where it does not.
unfoldable pub committed_version : Store → ℕ → ℕ
committed_version ds addr = elim (ds.account_versions addr) [
  | some version ↦ version
  | none ↦ elim (ds.account_values addr) [ none ↦ 0 | some acct ↦ acct.version ]
]

-- for i := version; i < acctp.Version; i++, as the count of its rounds
unfoldable pub notify_gc : (ℕ → ℕ → Bool) → ℕ → ℕ → ℕ → ℕ → ℕ → Bool
notify_gc gc addr version zero = gc
notify_gc gc addr version (suc rounds) =
    notify_gc (update gc addr (update (gc addr) version true)) addr (version + 1) rounds

-- The part of the loop's body that writes the account.
unfoldable pub write_account : Store → ℕ → AccountValue → Outcome Error Store
write_account written addr acctp =
    if acctp.version % 3 == 0
    then done (record written {
      account_values = delete written.account_values addr;
      account_versions = put written.account_versions addr acctp.version;
    })
    else if acctp.version % 3 == 2
    then fail panic
    else done (record written {
      account_values = put written.account_values addr acctp;
      account_versions = delete written.account_versions addr;
    })

unfoldable pub collect_old : Store → Store → ℕ → AccountValue → Store
unfolding committed_version notify_gc
collect_old ds written addr acctp =
    let version = committed_version ds addr in
    if ltb 0 version
    then record written { gc = notify_gc written.gc addr version (acctp.version - version) }
    else written

-- One round of the loop over UpdatedAccounts.
unfoldable pub persist_account : Store → Store → ℕ → AccountValue → Outcome Error Store
unfolding write_account collect_old
persist_account ds written addr acctp =
    if acctp.version == 0
    then done written
    else (write_account written addr acctp and_then λ w. done (collect_old ds w addr acctp))

abbrev pub persist_entry : Store → Store → ℕ → Option AccountValue → Outcome Error Store
persist_entry ds written addr none = done written
persist_entry ds written addr (some acctp) = persist_account ds written addr acctp

-- The loop over UpdatedAccounts, in the order of the list.
unfoldable pub persist_accounts : Store → List ℕ → Map AccountValue → Store → Outcome Error Store
unfolding persist_account
persist_accounts ds order updated =
    for_each (λ written addr. persist_entry ds written addr (updated addr)) order

-- The sign of an int64, from its bit pattern.
abbrev pub is_negative : ℕ → Bool
is_negative x = leb (2 ^ 63) x

-- A code that the datastore does not have.
abbrev pub count_new : Store → ℕ → ℕ → Option (List ℕ) → Outcome Error Store
count_new written code_hash diff none = fail no_preimage
count_new written code_hash diff (some code) =
    done (record written {
      codes = put written.codes code_hash (record { code = code; count = diff });
    })

-- A code that it has.
abbrev pub count_known : Store → ℕ → ℕ → CodeValue → Outcome Error Store
count_known written code_hash diff existing =
    let new = add64 existing.count diff in
    if is_negative new
    then fail negative_count
    else if new == 0
    then done (record written { codes = delete written.codes code_hash })
    else done (record written {
      codes = put written.codes code_hash (record { code = existing.code; count = new });
    })

abbrev pub write_count : Store → ℕ → ℕ → Option (List ℕ) → Option CodeValue → Outcome Error Store
write_count written code_hash diff preimage none =
    if is_negative diff then fail no_code else count_new written code_hash diff preimage
write_count written code_hash diff preimage (some existing) =
    count_known written code_hash diff existing

-- One round of the loop over UpdatedCodeCount.
unfoldable pub persist_code : Store → Store → LayerLog → ℕ → Outcome Error Store
persist_code ds written log code_hash =
    let diff = log.updated_code_count code_hash in
    if diff == 0
    then done written
    else write_count written code_hash diff (log.code_preimage code_hash) (ds.codes code_hash)

unfoldable pub persist_codes : Store → List ℕ → LayerLog → Store → Outcome Error Store
unfolding persist_code
persist_codes ds order log =
    for_each (λ written code_hash. persist_code ds written log code_hash) order

-- The loops over UpdatedStorage, which write each slot once.
unfoldable pub persist_storage : Store → LayerLog → Store
persist_storage written log = record written {
  storage = λ addr version key. elim (log.updated_storage addr version key) [
    | none ↦ written.storage addr version key
    | some val ↦ some val
  ];
}

-- PersistLayerLog. The two lists are the orders in which Go visits the entries of UpdatedAccounts and
-- of UpdatedCodeCount.
unfoldable pub persist_layer_log : Store → Store → LayerLog → List ℕ → List ℕ → Outcome Error Store
unfolding persist_accounts persist_codes persist_storage
persist_layer_log ds written log accounts codes =
    persist_accounts ds accounts log.updated_accounts
      (record written { persisted = some (log.block_number, log.root_hash) })
    and_then persist_codes ds codes log
    and_then λ v. done (persist_storage v log)

abbrev pub put_at {ℓ} : {V : Type ℓ} → (ℕ → ℕ → V) → ℕ → ℕ → V → ℕ → ℕ → V
put_at m height root v = update m height (update (m height) root v)

-- PutChildren, DeleteChildren, PutLayerLog and DeleteLayerLog
unfoldable pub put_children : Store → ℕ → ℕ → List ℕ → Store
put_children written height root_hash children = record written {
  children = put_at written.children height root_hash (some children);
}

unfoldable pub delete_children : Store → ℕ → ℕ → Store
delete_children written height root_hash = record written {
  children = put_at written.children height root_hash none;
}

unfoldable pub put_layer_log : Store → LayerLog → Store
put_layer_log written log = record written {
  layer_logs = put_at written.layer_logs log.block_number log.root_hash (some log);
}

unfoldable pub delete_layer_log : Store → ℕ → ℕ → Store
delete_layer_log written height root_hash = record written {
  layer_logs = put_at written.layer_logs height root_hash none;
}
