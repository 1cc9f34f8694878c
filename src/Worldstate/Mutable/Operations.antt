-- ===== src/Worldstate/Mutable/Operations.antt =====
-- Operations that the EVM makes on the state within a call, as data, and for each that the closures it
-- recorded take it back. SelfDestruct6780 and SetStorage are not among them: their closures do not.
use teler.Base.{ℕ, ◌≡◌, subst, Option, some, List, Option-cases, inl, inr, ◌>>=◌, >>=-eq-some}
use teler.Types.{Library}
use teler.Worldstate.Account.Reverts.{IsSound}
use teler.Worldstate.Account.Soundness.{code-Same, get_state-Same}
use teler.Worldstate.Committed.{Log}
use teler.Worldstate.Mutable.State.{State, read_account}
use teler.Worldstate.Mutable.Accounts.{change_account, change_account_if}
use teler.Worldstate.Mutable.Accounts
use teler.Worldstate.Mutable.Transaction
use teler.Worldstate.Mutable.Transaction.{slot_index, add_slot, transient_map}
use teler.Worldstate.Mutable.AccountChanges.{
  set_nonce-Extends, change_balance-Extends, set_state-Extends, create_account-Extends,
  self_destruct-Extends, set_code-Extends,
}
use teler.Worldstate.Mutable.TransactionChanges.{
  add_refund-Extends, sub_refund-Extends, create_contract-Extends, add_log-Extends,
  add_address-Extends,
}
use teler.Worldstate.Mutable.TransientChanges.{set_transient-Extends, add_slot_to-Extends}
use teler.Worldstate.Mutable.Reverts.{IsSoundState, Extends}
use teler.Worldstate.Mutable.Extensions.{Extends-keep_read}

pub data Op : Type 0 where
  set_nonce set_balance add_balance sub_balance : ℕ → ℕ → Op
  set_state : ℕ → ℕ → ℕ → Op
  set_code : ℕ → List ℕ → Op
  create_account create_contract self_destruct : ℕ → Op
  add_address_to_access_list : ℕ → Op
  add_slot_to_access_list : ℕ → ℕ → Op
  set_transient_state : ℕ → ℕ → ℕ → Op
  add_refund sub_refund : ℕ → Op
  add_log : Log → Op
  -- The reads that keep what they read.
  get_state : ℕ → ℕ → Op
  get_code : ℕ → Op

-- The state after an operation; `none` is a panic.
unfoldable pub step : Library → Op → State → Option State
step lib (set_nonce addr n) s = some (Accounts.set_nonce s addr n)
step lib (set_balance addr amt) s = some (Accounts.set_balance s addr amt)
step lib (add_balance addr amt) s = some (Accounts.add_balance lib s addr amt).1
step lib (sub_balance addr amt) s = some (Accounts.sub_balance lib s addr amt).1
step lib (set_state addr key val) s = some (Accounts.set_state s addr key val).1
step lib (set_code addr c) s = Accounts.set_code lib s addr c >>= λ r. some r.1
step lib (create_account addr) s = Accounts.create_account lib s addr
step lib (create_contract addr) s = some (Accounts.create_contract s addr)
step lib (self_destruct addr) s = Accounts.self_destruct s addr >>= λ r. some r.1
step lib (add_address_to_access_list addr) s = some (Transaction.add_address_to_access_list s addr)
step lib (add_slot_to_access_list addr slot) s = Transaction.add_slot_to_access_list s addr slot
step lib (set_transient_state addr key val) s =
    some (Transaction.set_transient_state s addr key val)
step lib (add_refund gas) s = some (Transaction.add_refund s gas)
step lib (sub_refund gas) s = Transaction.sub_refund s gas
step lib (add_log l) s = some (Transaction.add_log s l)
step lib (get_state addr key) s = some (Accounts.get_state s addr key).1
step lib (get_code addr) s = some (Accounts.get_code lib s addr).1

read_account-IsSound : (s : State) (addr : ℕ) → IsSoundState s → IsSound (read_account s addr)
unfolding read_account
read_account-IsSound s addr h = elim (Option-cases (s.dirty_accounts addr)) [
  | inl e ↦ rw (e, read_account) (h.loads addr)
  | inr (a, e) ↦ rw (e, read_account) (h.dirty addr a e)
]

-- A result under `some`, with the value that it comes with dropped.
bind-some-state {ℓ} :
    {A : Type ℓ} (m : Option (A × State)) (t : State) (P : State → Type 0)
    → ((r : A × State) → m ≡ some r → P r.1)
    → (m >>= λ r. some r.1) ≡ some t
    → P t
bind-some-state m t P h e =
    let (r, ran, out) = >>=-eq-some m (λ r. some r.1) e in
    let t_is : r.1 ≡ t = cc in subst P t_is (h r ran)

some-state : (s t : State) (P : State → Type 0) → P s → some s ≡ some t → P t
some-state s t P h e = let s_is : s ≡ t = cc in subst P s_is h

pub step-Extends :
    (lib : Library) (o : Op) (s t : State) → IsSoundState s → step lib o s ≡ some t → Extends s t
unfolding step Accounts.set_balance Accounts.add_balance Accounts.sub_balance Accounts.get_state
    Accounts.get_code
step-Extends lib (set_nonce addr n) s t h e =
    some-state _ t (Extends s) (set_nonce-Extends s addr n h) e
step-Extends lib (set_balance addr amt) s t h e =
    some-state _ t (Extends s) (change_balance-Extends s addr (λ b. amt) h) e
step-Extends lib (add_balance addr amt) s t h e =
    some-state _ t (Extends s) (change_balance-Extends s addr (λ b. lib.uint256_add b amt) h) e
step-Extends lib (sub_balance addr amt) s t h e =
    some-state _ t (Extends s) (change_balance-Extends s addr (λ b. Accounts.reduced lib b amt) h) e
step-Extends lib (set_state addr key val) s t h e =
    some-state _ t (Extends s) (set_state-Extends s addr key val h) e
step-Extends lib (set_code addr c) s t h e =
    bind-some-state _ t (Extends s) (λ r ran. set_code-Extends lib s addr c r h ran) e
step-Extends lib (create_account addr) s t h e = create_account-Extends lib s t addr h e
step-Extends lib (create_contract addr) s t h e =
    some-state _ t (Extends s) (create_contract-Extends s h addr) e
step-Extends lib (self_destruct addr) s t h e =
    bind-some-state _ t (Extends s) (λ r ran. self_destruct-Extends lib s addr r h ran) e
step-Extends lib (add_address_to_access_list addr) s t h e =
    some-state _ t (Extends s) (add_address-Extends s h addr) e
step-Extends lib (add_slot_to_access_list addr slot) s t h e = add_slot_to-Extends s t addr slot h e
step-Extends lib (set_transient_state addr key val) s t h e =
    some-state _ t (Extends s) (set_transient-Extends s addr key val h) e
step-Extends lib (add_refund gas) s t h e =
    some-state _ t (Extends s) (add_refund-Extends s h gas) e
step-Extends lib (sub_refund gas) s t h e = sub_refund-Extends s h gas t e
step-Extends lib (add_log l) s t h e = some-state _ t (Extends s) (add_log-Extends s h l) e
step-Extends lib (get_state addr key) s t h e =
    some-state _ t (Extends s)
      (Extends-keep_read s addr _ h (get_state-Same _ key (read_account-IsSound s addr h))) e
step-Extends lib (get_code addr) s t h e =
    some-state _ t (Extends s) (Extends-keep_read s addr _ h (code-Same lib _)) e
