-- ===== src/Worldstate/Mutable/AccountChanges.antt =====
-- The closures that the changes of accounts record take them back.
use teler.Base.{ℕ, ◌≡◌, Option, some, List, Option-cases, inl, inr, >>=-eq-some, arith}
use teler.Types.{Library}
use teler.Worldstate.Account.Object.{Account, Undo}
use teler.Worldstate.Account.Object
use teler.Worldstate.Account.Setters
use teler.Worldstate.Account.Reverts.{
  Same, IsSound, Undoes, Undoes-set_nonce, Undoes-set_balance, Undoes-set_state, UndoesIf-create,
  UndoesIf-self_destruct, UndoesIf-set_code,
}
use teler.Worldstate.Account.Soundness.{
  set_nonce-IsSound, set_balance-IsSound, set_state-IsSound, create-SoundIf, self_destruct-SoundIf,
  set_code-SoundIf, code-Same, get_state-Same, IsSound-Same, Same-trans,
}
use teler.Worldstate.Mutable.State.{State, read_account, load_account}
use teler.Worldstate.Mutable.Accounts.{change_account, change_account_if}
use teler.Worldstate.Mutable.Accounts
use teler.Worldstate.Mutable.Reverts.{IsSoundState, Extends, Extends-trans}
use teler.Worldstate.Mutable.Extensions.{
  Extends-change_account, load_account-Loads, read_account_lem, Extends-loaded,
}

-- An account is loaded and changed, by a setter that may panic.
Extends-loaded_if :
    (s t : State) (addr : ℕ) (f : Account → Option (Account × List Undo))
    → IsSoundState s
    → ((a : Account) (r : Account × List Undo)
        → IsSound a
        → f a ≡ some r
        → IsSound r.0 × Undoes a r)
    → change_account_if (load_account s addr) addr (f (read_account (load_account s addr) addr))
      ≡ some t
    → Extends s t
unfolding change_account_if
Extends-loaded_if s t addr f h good e =
    let (a, there, loaded) = load_account-Loads s addr h in
    let l = load_account s addr in
    let same = read_account_lem l addr a there in
    elim (Option-cases (f (read_account l addr))) [
      | inl fails ↦ cc (rw (fails, change_account_if) at e)
      | inr (r, goes) ↦
          let fa : f a ≡ some r = rw same at goes in
          let (sound, undoes) = good a r (loaded.sound.dirty addr a there) fa in
          let t_is : change_account l addr r ≡ t = ground arith in
          Extends-trans s l t loaded
            (rw (← t_is) (Extends-change_account l addr a r loaded.sound there sound undoes))
    ]

-- A setter that works on what a read of the account kept.
Undoes-read : (a b : Account) (r : Account × List Undo) → Same a b → Undoes b r → Undoes a r
Undoes-read a b r same undoes c h = Same-trans a b _ same (undoes c h)

pub set_nonce-Extends :
    (s : State) (addr n : ℕ) → IsSoundState s → Extends s (Accounts.set_nonce s addr n)
unfolding Accounts.set_nonce
set_nonce-Extends s addr n h =
    Extends-loaded s addr (λ a. Setters.set_nonce a n) h
      λ a sound. (set_nonce-IsSound a n sound, Undoes-set_nonce a n sound)

-- A balance that is computed from the one before.
pub change_balance-Extends :
    (s : State) (addr : ℕ) (f : ℕ → ℕ)
    → IsSoundState s
    → Extends s (
        change_account (load_account s addr) addr (
          Setters.set_balance
            (read_account (load_account s addr) addr)
            (f (read_account (load_account s addr) addr).balance)))
change_balance-Extends s addr f h =
    Extends-loaded s addr (λ a. Setters.set_balance a (f a.balance)) h
      λ a sound.
        (set_balance-IsSound a (f a.balance) sound, Undoes-set_balance a (f a.balance) sound)

pub set_state-Extends :
    (s : State) (addr key val : ℕ)
    → IsSoundState s
    → Extends s (Accounts.set_state s addr key val).1
unfolding Accounts.set_state
set_state-Extends s addr key val h =
    Extends-loaded s addr (λ a. Setters.set_state (Object.get_state a key).1 key val) h
      λ a sound.
        let same = get_state-Same a key sound in
        let b = (Object.get_state a key).1 in
        let sound_b = IsSound-Same a b same sound in
        (
          set_state-IsSound b key val sound_b,
          Undoes-read a b _ same (Undoes-set_state b key val sound_b),
        )

module _ (lib : Library) where
  pub create_account-Extends :
      (s t : State) (addr : ℕ)
      → IsSoundState s
      → Accounts.create_account lib s addr ≡ some t
      → Extends s t
  unfolding Accounts.create_account
  create_account-Extends s t addr h e =
      Extends-loaded_if s t addr (Setters.create lib) h
        (λ a r sound f. (create-SoundIf lib a sound r f, UndoesIf-create lib a sound r f)) e

  pub self_destruct-Extends :
      (s : State) (addr : ℕ) (r : ℕ × State)
      → IsSoundState s
      → Accounts.self_destruct s addr ≡ some r
      → Extends s r.1
  unfolding Accounts.self_destruct
  self_destruct-Extends s addr r h e =
      let (t, ran, out) = >>=-eq-some _ _ e in
      let t_is : t ≡ r.1 = ground arith in
      rw (← t_is) (
        Extends-loaded_if s t addr Setters.self_destruct h
          (λ a q sound f. (self_destruct-SoundIf a sound q f, UndoesIf-self_destruct a sound q f))
          ran)

  pub set_code-Extends :
      (s : State) (addr : ℕ) (c : List ℕ) (r : List ℕ × State)
      → IsSoundState s
      → Accounts.set_code lib s addr c ≡ some r
      → Extends s r.1
  unfolding Accounts.set_code
  set_code-Extends s addr c r h e =
      let (t, ran, out) = >>=-eq-some _ _ e in
      let t_is : t ≡ r.1 = ground arith in
      rw (← t_is) (
        Extends-loaded_if s t addr (λ a. Setters.set_code lib (Object.code lib a).1 c) h
          (λ a q sound f.
            let same = code-Same lib a in
            let b = (Object.code lib a).1 in
            let sound_b = IsSound-Same a b same sound in
            (
              set_code-SoundIf lib b c sound_b q f,
              Undoes-read a b q same (UndoesIf-set_code lib b c sound_b q f),
            ))
          ran)
