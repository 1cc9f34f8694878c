-- ===== src/Worldstate/Mutable/Transaction.antt =====
-- worldstate/mutablestate_impl.go: what lives as long as a transaction: the access list, the
-- transient storage, the refund counter and the logs.
use teler.Base.{
  ℕ, ◌-◌, Bool, true, false, ◌&&◌, Option, none, some, List, [], ◌∷◌, ◌++◌, map, Map, empty, put,
  get_or, update, ◌==◌, ltb, if◌then◌else◌, length, get_elem?, set, add64, ◌>>=◌,
}
use teler.Worldstate.Committed
use teler.Worldstate.Committed.{Log, annotate}
use teler.Worldstate.Mutable.State.{
  State, record_journal, forget_address, drop_slots, bare_address, forget_slot, forget_transient,
  transient_back, transient_delete, refund_back, drop_log,
}

-- SetTxContext
unfoldable pub set_tx_context : State → ℕ → ℕ → State
set_tx_context s thash ti = record s { tx_hash = thash; tx_idx = ti; refund = 0; logs = [] }

-- AddressInAccessList
unfoldable pub address_in_access_list : State → ℕ → Bool
address_in_access_list s addr = elim (s.access_address addr) [ none ↦ false | some idx ↦ true ]

-- AddAddressToAccessList
unfoldable pub add_address_to_access_list : State → ℕ → State
add_address_to_access_list s addr = elim (s.access_address addr) [
  | none ↦
      record_journal (record s { access_address = put s.access_address addr none })
        (forget_address addr)
  | some idx ↦ s
]

abbrev pub slot_in : List (ℕ → Bool) → Option (Option ℕ) → ℕ → Option (Bool × Bool)
slot_in l none slot = some (false, false)
slot_in l (some none) slot = some (true, false)
slot_in l (some (some idx)) slot = get_elem? l idx >>= λ slots. some (true, slots slot)

-- SlotInAccessList; `none` is the panic of an index out of range.
unfoldable pub slot_in_access_list : State → ℕ → ℕ → Option (Bool × Bool)
slot_in_access_list s addr slot = slot_in s.access_storage (s.access_address addr) slot

-- The index of the slot set of the address, which is made if there is none.
unfoldable pub slot_index : State → ℕ → Option (Option ℕ) → ℕ × State
unfolding record_journal
slot_index s addr none = (
  length s.access_storage,
  record_journal
      (record s {
        access_address = put s.access_address addr (some (length s.access_storage));
        access_storage = s.access_storage ++ (λ k. false) ∷ [];
      })
      (drop_slots addr),
)
slot_index s addr (some none) = (
  length s.access_storage,
  record_journal
      (record s {
        access_address = put s.access_address addr (some (length s.access_storage));
        access_storage = s.access_storage ++ (λ k. false) ∷ [];
      })
      (bare_address addr),
)
slot_index s addr (some (some idx)) = (idx, s)

unfoldable pub add_slot : State → ℕ → ℕ → (ℕ → Bool) → State
unfolding record_journal
add_slot s idx slot slots =
    if slots slot
    then s
    else record_journal
        (record s { access_storage = set s.access_storage idx (update slots slot true) })
        (forget_slot idx slot)

-- AddSlotToAccessList; `none` is the panic of an index out of range.
unfoldable pub add_slot_to_access_list : State → ℕ → ℕ → Option State
unfolding slot_index add_slot
add_slot_to_access_list s addr slot =
    let (idx, t) = slot_index s addr (s.access_address addr) in
    get_elem? t.access_storage idx >>= λ slots. some (add_slot t idx slot slots)

-- GetTransientState
unfoldable pub get_transient_state : State → ℕ → ℕ → ℕ
get_transient_state s addr key = elim (s.transient_state addr) [
  | none ↦ 0
  | some slots ↦ get_or (slots key) 0
]

-- The map of the address, made if there is none.
unfoldable pub transient_map : State → ℕ → Map ℕ × State
unfolding record_journal
transient_map s addr = elim (s.transient_state addr) [
  | none ↦ (
    empty,
    record_journal (record s { transient_state = put s.transient_state addr empty })
        (forget_transient addr),
  )
  | some slots ↦ (slots, s)
]

-- SetTransientState
unfoldable pub set_transient_state : State → ℕ → ℕ → ℕ → State
unfolding transient_map
set_transient_state s addr key val =
    let (slots, t) = transient_map s addr in
    record_journal (record t { transient_state = put t.transient_state addr (put slots key val) })
      (elim (slots key) [
        | none ↦ transient_delete addr key
        | some original ↦ transient_back addr key original
      ])

-- AddRefund
unfoldable pub add_refund : State → ℕ → State
add_refund s gas = record_journal (record s { refund = add64 s.refund gas }) (refund_back s.refund)

-- SubRefund; `none` is the panic.
unfoldable pub sub_refund : State → ℕ → Option State
sub_refund s gas =
    if ltb s.refund gas
    then none
    else some (record_journal (record s { refund = s.refund - gas }) (refund_back s.refund))

-- GetLogs
unfoldable pub get_logs : State → ℕ → ℕ → ℕ → List Log × State
get_logs s hash block_number block_hash =
    if s.tx_hash == hash
    then (let annotated = map (annotate block_number block_hash) s.logs in
        (annotated, record s { logs = annotated }))
    else (let (logs, parent) = Committed.get_logs s.parent hash block_number block_hash in
        (logs, record s { parent = parent }))

-- AddLog
unfoldable pub add_log : State → Log → State
add_log s l =
    record_journal
      (record s {
        logs =
            s.logs
            ++ record l {
              tx_hash = s.tx_hash;
              tx_index = s.tx_idx;
              index = add64 s.parent.log_size (length s.logs);
            }
              ∷ [];
      })
      drop_log

-- The fields of params.Rules that Prepare reads.
pub record Rules : Type 0 where
  pub is_eip2929 : Bool
  pub is_eip4762 : Bool
  pub is_shanghai : Bool

-- An element of types.AccessList.
pub record AccessTuple : Type 0 where
  pub address : ℕ
  pub storage_keys : List ℕ

unfoldable pub add_addresses : State → List ℕ → State
add_addresses s [] = s
add_addresses s (addr ∷ rest) = add_addresses (add_address_to_access_list s addr) rest

unfoldable pub add_slots : State → ℕ → List ℕ → Option State
add_slots s addr [] = some s
add_slots s addr (key ∷ rest) = add_slot_to_access_list s addr key >>= λ t. add_slots t addr rest

unfoldable pub add_tuples : State → List AccessTuple → Option State
unfolding add_slots
add_tuples s [] = some s
add_tuples s (el ∷ rest) =
    add_slots (add_address_to_access_list s el.address) el.address el.storage_keys >>= λ t.
    add_tuples t rest

abbrev add_dest : State → Option ℕ → State
add_dest s none = s
add_dest s (some dest) = add_address_to_access_list s dest

-- Prepare; `none` is the panic on two rule sets at once.
unfoldable pub prepare : State → Rules → ℕ → ℕ → Option ℕ → List ℕ → List AccessTuple → Option State
unfolding add_addresses add_tuples
prepare s rules sender coinbase dest precompiles tx_accesses =
    if rules.is_eip2929 && rules.is_eip4762
    then none
    else ((if rules.is_eip2929
          then (let cleared = record s { access_address = empty; access_storage = [] } in
              let warm = add_dest (add_address_to_access_list cleared sender) dest in
              add_tuples (add_addresses warm precompiles) tx_accesses >>= λ t.
              some (if rules.is_shanghai then add_address_to_access_list t coinbase else t))
          else some s)
        >>= λ t. some (record t { transient_state = empty }))
