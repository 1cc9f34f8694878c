-- ===== src/Worldstate/Mutable/Closures.antt =====
-- Each closure gives back what its change replaced.
use teler.Base.{
  ℕ, zero, suc, ◌≡◌, refl, ap, ◌∙◌, sym, fun_ext, Bool, true, false, none, some, List, [], ◌∷◌,
  ◌++◌, put, delete, update, Bool-cases, inl, inr, ◌==◌, ==_iff, length, get_elem?, set,
  drop_last-append, arith,
}
use teler.Worldstate.Committed.{Log}
use teler.Worldstate.Mutable.State.{
  State, revert_one, change_slots, drop_slot_set, drop_log, drop_slots, bare_address, forget_slot,
}

pub update_back :
    {V : Type 0} (f : ℕ → V) (k : ℕ) (v w : V) → f k ≡ v → update (update f k w) k v ≡ f
update_back f k v w h = fun_ext λ j. elim (Bool-cases (j == k)) [
  | inl t ↦ rw t (sym h ∙ ap f (sym ((==_iff j k).0 t)))
  | inr t ↦ rw t
]

pub drop_slot_set_back : (l : List (ℕ → Bool)) (x : ℕ → Bool) → drop_slot_set (l ++ x ∷ []) ≡ some l
drop_slot_set_back [] x = refl
drop_slot_set_back (y ∷ l) x = ap some (drop_last-append (y ∷ l) x)

pub set_back :
    {V : Type 0} (l : List V) (i : ℕ) (v w : V) → get_elem? l i ≡ some v → set (set l i w) i v ≡ l
set_back [] i v w h = refl
set_back (x ∷ l) zero v w h = ground arith
set_back (x ∷ l) (suc i) v w h = ap (λ m. x ∷ m) (set_back l i v w h)

pub get_elem?-set :
    {V : Type 0} (l : List V) (i : ℕ) (v w : V)
    → get_elem? l i ≡ some v
    → get_elem? (set l i w) i ≡ some w
get_elem?-set [] i v w h = cc
get_elem?-set (x ∷ l) zero v w h = refl
get_elem?-set (x ∷ l) (suc i) v w h = get_elem?-set l i v w h

pub get_elem?-append_last :
    {V : Type 0} (l : List V) (v : V) → get_elem? (l ++ v ∷ []) (length l) ≡ some v
get_elem?-append_last [] v = refl
get_elem?-append_last (x ∷ l) v = get_elem?-append_last l v

pub drop_log_back :
    (u : State) (ls : List Log) (l : Log)
    → u.logs ≡ ls ++ l ∷ []
    → revert_one drop_log u ≡ some (record u { logs = ls })
unfolding revert_one
drop_log_back u [] l e = rw (e, revert_one)
drop_log_back u (x ∷ ls) l e =
    rw (e, revert_one) (ap (λ m. some (record u { logs = m })) (drop_last-append (x ∷ ls) l))

pub drop_slots_back :
    (u : State) (addr : ℕ) (l : List (ℕ → Bool)) (x : ℕ → Bool)
    → u.access_storage ≡ l ++ x ∷ []
    → revert_one (drop_slots addr) u
      ≡ some (record u { access_storage = l; access_address = delete u.access_address addr })
unfolding revert_one
drop_slots_back u addr l x e =
    let dropped : drop_slot_set u.access_storage ≡ some l =
      ap drop_slot_set e ∙ drop_slot_set_back l x in
    rw (dropped, revert_one)

pub bare_address_back :
    (u : State) (addr : ℕ) (l : List (ℕ → Bool)) (x : ℕ → Bool)
    → u.access_storage ≡ l ++ x ∷ []
    → revert_one (bare_address addr) u
      ≡ some (record u { access_storage = l; access_address = put u.access_address addr none })
unfolding revert_one
bare_address_back u addr l x e =
    let dropped : drop_slot_set u.access_storage ≡ some l =
      ap drop_slot_set e ∙ drop_slot_set_back l x in
    rw (dropped, revert_one)

pub forget_slot_back :
    (u : State) (l : List (ℕ → Bool)) (idx slot : ℕ) (slots : ℕ → Bool)
    → get_elem? l idx ≡ some slots
    → slots slot ≡ false
    → u.access_storage ≡ set l idx (update slots slot true)
    → revert_one (forget_slot idx slot) u ≡ some (record u { access_storage = l })
unfolding revert_one
forget_slot_back u l idx slot slots e t h =
    let new = update slots slot true in
    let undone : change_slots (set l idx new) idx slot (get_elem? (set l idx new) idx) ≡ some l =
      rw
        (
          get_elem?-set l idx slots new e,
          update_back slots slot false true t,
          set_back l idx slots new e,
        )
        refl in
    let changed : change_slots u.access_storage idx slot (get_elem? u.access_storage idx) ≡ some l =
      ap (λ m. change_slots m idx slot (get_elem? m idx)) h ∙ undone in
    rw (changed, revert_one)
