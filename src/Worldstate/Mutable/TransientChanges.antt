-- ===== src/Worldstate/Mutable/TransientChanges.antt =====
-- The closures of the changes of the transient storage and of the slots of the access list.
use teler.Worldstate.Mutable.TransactionChanges.{
  transient_map-Extends, slot_index-Extends, add_slot-Extends,
}
use teler.Base.{
  ℕ, ◌≡◌, refl, ap, ◌∙◌, fun_ext, Option, none, some, Map, put, delete, delete-put, put-put,
  get_elem?, >>=-eq-some, arith,
}
use teler.Worldstate.Mutable.State.{
  State, record_journal, revert_one, change_transient, transient_back, transient_delete,
}
use teler.Worldstate.Mutable.Transaction
use teler.Worldstate.Mutable.Transaction.{slot_index, add_slot, transient_map}
use teler.Worldstate.Mutable.Reverts.{IsSoundState, Extends, Extends-trans}
use teler.Worldstate.Mutable.Extensions.{Extends-one}

pub change_transient-put :
    (m : Map (Map ℕ)) (addr : ℕ) (slots new : Map ℕ) (f : Map ℕ → Map ℕ)
    → m addr ≡ some slots
    → f new ≡ slots
    → change_transient (put m addr new) addr f ≡ m
change_transient-put m addr slots new f e undone = fun_ext λ x. ground arith

module _ (s : State) (h : IsSoundState s) (addr key val : ℕ) (slots : Map ℕ) where
  -- A slot of a map that is there.
  pub put_transient-Extends :
      s.transient_state addr ≡ some slots
      → (o : Option ℕ) → slots key ≡ o
      → Extends s (
          record_journal
            (record s { transient_state = put s.transient_state addr (put slots key val) })
            (elim o [
              | none ↦ transient_delete addr key
              | some original ↦ transient_back addr key original
            ]))
  unfolding revert_one
  put_transient-Extends e none o =
      Extends-one s t (transient_delete addr key) refl refl
        (record { dirty = h.dirty; loads = h.loads })
        λ u same.
          let undone : change_transient u.transient_state addr (λ m. delete m key)
              ≡ s.transient_state =
            ap (λ m. change_transient m addr (λ n. delete n key)) same.fields.transient_state
            ∙ change_transient-put s.transient_state addr slots (put slots key val)
                (λ n. delete n key) e (delete-put slots key val o) in
          (
            record u { transient_state = s.transient_state },
            ap (λ m. some (record u { transient_state = m })) undone,
            record { fields = ground (arith, same.fields); accounts = same.accounts },
          )
    where
      t : State
      t = record s { transient_state = put s.transient_state addr (put slots key val) }
  put_transient-Extends e (some original) o =
      Extends-one s t (transient_back addr key original) refl refl
        (record { dirty = h.dirty; loads = h.loads })
        λ u same.
          let undone : change_transient u.transient_state addr (λ m. put m key original)
              ≡ s.transient_state =
            ap (λ m. change_transient m addr (λ n. put n key original)) same.fields.transient_state
            ∙ change_transient-put s.transient_state addr slots (put slots key val)
                (λ n. put n key original) e (put-put slots key val original o) in
          (
            record u { transient_state = s.transient_state },
            ap (λ m. some (record u { transient_state = m })) undone,
            record { fields = ground (arith, same.fields); accounts = same.accounts },
          )
    where
      t : State
      t = record s { transient_state = put s.transient_state addr (put slots key val) }

pub transient_map_there :
    (s : State) (addr : ℕ)
    → (transient_map s addr).1.transient_state addr ≡ some (transient_map s addr).0
unfolding transient_map record_journal
transient_map_there s addr = ground arith

pub set_transient-Extends :
    (s : State) (addr key val : ℕ)
    → IsSoundState s
    → Extends s (Transaction.set_transient_state s addr key val)
unfolding Transaction.set_transient_state
set_transient-Extends s addr key val h =
    let there = transient_map-Extends s h addr in
    let (slots, t) = transient_map s addr in
    Extends-trans s t _ there (
      put_transient-Extends t there.sound addr key val slots (transient_map_there s addr)
        (slots key) refl)

pub add_slot_to-Extends :
    (s t : State) (addr slot : ℕ)
    → IsSoundState s
    → Transaction.add_slot_to_access_list s addr slot ≡ some t
    → Extends s t
unfolding Transaction.add_slot_to_access_list
add_slot_to-Extends s t addr slot h e =
    let there = slot_index-Extends s h addr (s.access_address addr) refl in
    let (idx, u) = slot_index s addr (s.access_address addr) in
    let (slots, found, out) = >>=-eq-some (get_elem? u.access_storage idx) _ e in
    let t_is : add_slot u idx slot slots ≡ t = ground arith in
    rw (← t_is) (Extends-trans s u _ there (add_slot-Extends u there.sound idx slot slots found))
