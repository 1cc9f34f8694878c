-- ===== src/Worldstate/Mutable/TransactionChanges.antt =====
-- The closures that the changes of the access list, the transient storage, the refund counter and
-- the logs record take them back.
use teler.Worldstate.Mutable.Closures.{
  update_back, drop_log_back, drop_slots_back, bare_address_back, forget_slot_back,
}
use teler.Base.{
  ℕ, ◌-◌, ◌≡◌, refl, Bool, true, false, Option, none, some, [], ◌∷◌, ◌++◌, empty, put, delete,
  update, delete-put, put-put, Option-cases, Bool-cases, inl, inr, add64, length, get_elem?, set,
  arith,
}
use teler.Worldstate.Committed.{Log}
use teler.Worldstate.Mutable.State.{
  State, record_journal, revert_one, forget_contract, refund_back, drop_log, forget_address,
  drop_slots, bare_address, forget_slot, forget_transient,
}
use teler.Worldstate.Mutable.Accounts.{change_account, change_account_if}
use teler.Worldstate.Mutable.Accounts
use teler.Worldstate.Mutable.Transaction
use teler.Worldstate.Mutable.Transaction.{slot_index, add_slot, transient_map}
use teler.Worldstate.Mutable.Reverts.{SameState-refl, IsSoundState, Extends, Extends-same}
use teler.Worldstate.Mutable.Extensions.{Extends-one}

module _ (s : State) (h : IsSoundState s) where
  pub add_refund-Extends : (gas : ℕ) → Extends s (Transaction.add_refund s gas)
  unfolding Transaction.add_refund revert_one
  add_refund-Extends gas =
      Extends-one s (record s { refund = add64 s.refund gas }) (refund_back s.refund) refl refl
        (record { dirty = h.dirty; loads = h.loads })
        λ u same. (
          record u { refund = s.refund },
          refl,
          record { fields = ground (arith, same.fields); accounts = same.accounts },
        )

  pub sub_refund-Extends :
      (gas : ℕ) (t : State) → Transaction.sub_refund s gas ≡ some t → Extends s t
  unfolding Transaction.sub_refund revert_one
  sub_refund-Extends gas t e =
      let changed =
        Extends-one s (record s { refund = s.refund - gas }) (refund_back s.refund) refl refl
          (record { dirty = h.dirty; loads = h.loads })
          λ u same. (
            record u { refund = s.refund },
            refl,
            record { fields = ground (arith, same.fields); accounts = same.accounts },
          ) in
      let t_is : record_journal (record s { refund = s.refund - gas }) (refund_back s.refund) ≡ t =
        ground arith in
      rw (← t_is) changed

  pub create_contract-Extends : (addr : ℕ) → Extends s (Accounts.create_contract s addr)
  unfolding Accounts.create_contract revert_one
  create_contract-Extends addr = elim (Bool-cases (s.new_contracts addr)) [
    | inl e ↦ rw (e, Accounts.create_contract) (Extends-same s s refl refl h (SameState-refl s))
    | inr e ↦
        rw (e, Accounts.create_contract)
          (Extends-one s (record s { new_contracts = update s.new_contracts addr true })
            (forget_contract addr) refl refl (record { dirty = h.dirty; loads = h.loads })
            λ u same. (
              record u { new_contracts = update u.new_contracts addr false },
              refl,
              record {
                fields = ground (arith, same.fields, update_back s.new_contracts addr false true e);
                accounts = same.accounts;
              },
            ))
  ]

  pub add_log-Extends : (l : Log) → Extends s (Transaction.add_log s l)
  unfolding Transaction.add_log revert_one
  add_log-Extends l =
      let last : Log = record l {
        tx_hash = s.tx_hash;
        tx_index = s.tx_idx;
        index = add64 s.parent.log_size (length s.logs);
      } in
      Extends-one s (record s { logs = s.logs ++ last ∷ [] }) drop_log refl refl
        (record { dirty = h.dirty; loads = h.loads })
        λ u same. (
          record u { logs = s.logs },
          drop_log_back u s.logs last same.fields.logs,
          record { fields = ground (arith, same.fields); accounts = same.accounts },
        )

  pub add_address-Extends : (addr : ℕ) → Extends s (Transaction.add_address_to_access_list s addr)
  unfolding Transaction.add_address_to_access_list revert_one
  add_address-Extends addr = elim (Option-cases (s.access_address addr)) [
    | inr (idx, e) ↦
        rw (e, Transaction.add_address_to_access_list)
          (Extends-same s s refl refl h (SameState-refl s))
    | inl e ↦
        rw (e, Transaction.add_address_to_access_list)
          (Extends-one s (record s { access_address = put s.access_address addr none })
            (forget_address addr) refl refl (record { dirty = h.dirty; loads = h.loads })
            λ u same. (
              record u { access_address = delete u.access_address addr },
              refl,
              record {
                fields = ground (arith, same.fields, delete-put s.access_address addr none e);
                accounts = same.accounts;
              },
            ))
  ]

  pub slot_index-Extends :
      (addr : ℕ) (o : Option (Option ℕ))
      → s.access_address addr ≡ o
      → Extends s (slot_index s addr o).1
  unfolding slot_index revert_one
  slot_index-Extends addr none e =
      Extends-one s
        (record s {
          access_address = put s.access_address addr (some (length s.access_storage));
          access_storage = s.access_storage ++ (λ k. false) ∷ [];
        })
        (drop_slots addr) refl refl (record { dirty = h.dirty; loads = h.loads })
        λ u same. (
          record u {
            access_storage = s.access_storage;
            access_address = delete u.access_address addr;
          },
          drop_slots_back u addr s.access_storage (λ k. false) same.fields.access_storage,
          record {
            fields = ground (
              arith,
              same.fields,
              delete-put s.access_address addr (some (length s.access_storage)) e,
            );
            accounts = same.accounts;
          },
        )
  slot_index-Extends addr (some none) e =
      Extends-one s
        (record s {
          access_address = put s.access_address addr (some (length s.access_storage));
          access_storage = s.access_storage ++ (λ k. false) ∷ [];
        })
        (bare_address addr) refl refl (record { dirty = h.dirty; loads = h.loads })
        λ u same. (
          record u {
            access_storage = s.access_storage;
            access_address = put u.access_address addr none;
          },
          bare_address_back u addr s.access_storage (λ k. false) same.fields.access_storage,
          record {
            fields = ground (
              arith,
              same.fields,
              put-put s.access_address addr (some (length s.access_storage)) none e,
            );
            accounts = same.accounts;
          },
        )
  slot_index-Extends addr (some (some idx)) e = Extends-same s s refl refl h (SameState-refl s)

  pub add_slot-Extends :
      (idx slot : ℕ) (slots : ℕ → Bool)
      → get_elem? s.access_storage idx ≡ some slots
      → Extends s (add_slot s idx slot slots)
  unfolding add_slot revert_one
  add_slot-Extends idx slot slots e = elim (Bool-cases (slots slot)) [
    | inl t ↦ rw (t, add_slot) (Extends-same s s refl refl h (SameState-refl s))
    | inr t ↦
        rw (t, add_slot)
          (Extends-one s
            (record s { access_storage = set s.access_storage idx (update slots slot true) })
            (forget_slot idx slot) refl refl (record { dirty = h.dirty; loads = h.loads })
            λ u same. (
              record u { access_storage = s.access_storage },
              forget_slot_back u s.access_storage idx slot slots e t same.fields.access_storage,
              record { fields = ground (arith, same.fields); accounts = same.accounts },
            ))
  ]

  pub transient_map-Extends : (addr : ℕ) → Extends s (transient_map s addr).1
  unfolding transient_map revert_one
  transient_map-Extends addr = elim (Option-cases (s.transient_state addr)) [
    | inr (m, e) ↦ rw (e, transient_map) (Extends-same s s refl refl h (SameState-refl s))
    | inl e ↦
        rw (e, transient_map)
          (Extends-one s (record s { transient_state = put s.transient_state addr empty })
            (forget_transient addr) refl refl (record { dirty = h.dirty; loads = h.loads })
            λ u same. (
              record u { transient_state = delete u.transient_state addr },
              refl,
              record {
                fields = ground (arith, same.fields, delete-put s.transient_state addr empty e);
                accounts = same.accounts;
              },
            ))
  ]
