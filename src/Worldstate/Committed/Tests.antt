-- ===== src/Worldstate/Committed/Tests.antt =====
-- The theorems on the accounts handed over at concrete transactions.
use teler.Base.{
  ℕ, ◌≡◌, refl, sym, subst, some, [], ◌∷◌, Map, empty, put, ◌==◌, ==_iff, if-true, if-false,
  Bool-cases, inl, inr, some-inj, arith,
}
use teler.Worldstate.Samples.{sample_library, sample_layer, sample_account}
use teler.Worldstate.Account.Object.{Account, new_mutable_account}
use teler.Worldstate.Account.Reverts.{IsSound}
use teler.Worldstate.Account.Lifecycle.{Reach, here, next, state}
use teler.Statestore.Accounts.{IsHandedOver}
use teler.Worldstate.Committed.HandedOver.{IsHandedOverBlock, apply_changes-IsHandedOver}
use teler.Worldstate.Account.Setters.{set_state}
use teler.Worldstate.Committed.{
  Committed, new_temp_committed, get_mutable_account, apply_changes, account_value,
}

abbrev written : Account
written = (set_state sample_account 1 2).0

abbrev changed : Map Account
changed = put (put empty 3 written) 4 sample_account

abbrev before : Committed
before = new_temp_committed sample_layer 20

-- The account at 3, loaded and written.
abbrev loaded : Account
loaded = get_mutable_account before 3

abbrev one_dirty : Map Account
one_dirty = put empty 3 (set_state loaded 1 2).0

before-IsHandedOverBlock : IsHandedOverBlock sample_library before
unfolding new_temp_committed
before-IsHandedOverBlock = record {
  under = λ a. record {
    settled = λ e. absurd (omega (arith, e));
    deleted = λ e. absurd (omega (arith, e));
    absent = λ e. refl;
  };
  over = λ a v e. cc;
}

loaded-IsSound : IsSound loaded
unfolding new_temp_committed get_mutable_account new_mutable_account account_value
loaded-IsSound = record {
  room = omega arith;
  bare = λ e. absurd (omega (arith, e));
  clean = λ h key. cc;
}

one_dirty-Reach :
    (addr : ℕ) (a : Account)
    → one_dirty addr ≡ some a
    → IsSound (get_mutable_account before addr)
      × Reach sample_library (get_mutable_account before addr) a
one_dirty-Reach addr a e = elim (Bool-cases (addr == 3)) [
  | inl t ↦
      subst
        (λ b.
          IsSound (get_mutable_account before b)
          × Reach sample_library (get_mutable_account before b) a)
        (sym ((==_iff addr 3).0 t))
        (
          loaded-IsSound,
          subst (Reach sample_library loaded) (some-inj (if-true _ _ _ t e))
              (next here (state 1 2)),
        )
  | inr t ↦ cc (if-false _ _ _ t e)
]

apply_changes-IsHandedOver_example :
    IsHandedOver sample_library sample_layer.get_account_value
      (apply_changes sample_library before (3 ∷ []) 60 [] one_dirty).committed_accounts
    × IsHandedOverBlock sample_library
        (apply_changes sample_library before (3 ∷ []) 60 [] one_dirty)
unfolding new_temp_committed
apply_changes-IsHandedOver_example =
    apply_changes-IsHandedOver sample_library before (3 ∷ []) 60 [] one_dirty
      before-IsHandedOverBlock one_dirty-Reach
