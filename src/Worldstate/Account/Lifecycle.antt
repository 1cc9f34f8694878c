-- ===== src/Worldstate/Account/Lifecycle.antt =====
-- The life of an account object, as a relation: whatever setters and reads it goes through, its
-- version runs through 3 n, 3 n + 1, 3 n + 2 and no further, and what is handed over at the end of
-- the transaction is an account that either exists or does not.
use teler.Base.{ℕ, ◌+◌, ◌*◌, ◌/◌, ◌%◌, ◌≤◌, ◌≡◌, ◌≢◌, some, List, arith}
use teler.Types.{Library}
use teler.Worldstate.Account.Object.{Account, Undo, get_state, code}
use teler.Worldstate.Account.Setters.{
  set_nonce, set_balance, set_state, self_destruct, create, set_code,
}
use teler.Worldstate.Account.Finalized.{get_finalized}
use teler.Worldstate.Account.Reverts.{IsSound}
use teler.Worldstate.Account.Soundness.{
  set_nonce-IsSound, set_balance-IsSound, set_state-IsSound, self_destruct-SoundIf, create-SoundIf,
  set_code-SoundIf, code-Same, get_state-Same, IsSound-Same,
}

module _ (lib : Library) where
  pub data Step (a : Account) : Account → Type 0 where
    nonce : (n : ℕ) → Step a (set_nonce a n).0
    balance : (n : ℕ) → Step a (set_balance a n).0
    state : (k v : ℕ) → Step a (set_state a k v).0
    destruct : (r : Account × List Undo) → self_destruct a ≡ some r → Step a r.0
    created : (r : Account × List Undo) → create lib a ≡ some r → Step a r.0
    coded : (c : List ℕ) (r : Account × List Undo) → set_code lib a c ≡ some r → Step a r.0
    read_state : (k : ℕ) → Step a (get_state a k).1
    read_code : Step a (code lib a).1

  pub data Reach (a : Account) : Account → Type 0 where
    here : Reach a a
    next : {b c : Account} → Reach a b → Step b c → Reach a c

  Step-IsSound : {a b : Account} → Step a b → IsSound a → IsSound b
  Step-IsSound {a} (nonce n) s = set_nonce-IsSound a n s
  Step-IsSound {a} (balance n) s = set_balance-IsSound a n s
  Step-IsSound {a} (state k v) s = set_state-IsSound a k v s
  Step-IsSound {a} (destruct r e) s = self_destruct-SoundIf a s r e
  Step-IsSound {a} (created r e) s = create-SoundIf lib a s r e
  Step-IsSound {a} (coded c r e) s = set_code-SoundIf lib a c s r e
  Step-IsSound {a} (read_state k) s = IsSound-Same a _ (get_state-Same a k s) s
  Step-IsSound {a} read_code s = IsSound-Same a _ (code-Same lib a) s

  Step-version :
      {a b : Account}
      → Step a b
      → IsSound a
      → (a.version ≤ b.version) × (b.version / 3 ≡ a.version / 3)
  unfolding set_nonce set_balance set_state self_destruct create set_code get_state code
  Step-version (nonce n) s = ground (arith, s.room)
  Step-version (balance n) s = ground (arith, s.room)
  Step-version (state k v) s = ground (arith, s.room)
  Step-version (destruct r e) s = ground (arith, s.room)
  Step-version (created r e) s = ground (arith, s.room)
  Step-version (coded c r e) s = ground (arith, s.room)
  Step-version (read_state k) s = ground arith
  Step-version read_code s = ground arith

  pub Reach-version :
      {a b : Account}
      → IsSound a
      → Reach a b
      → IsSound b × (a.version ≤ b.version) × (b.version ≤ 3 * (a.version / 3) + 2)
  Reach-version s here = (s, omega arith, omega arith)
  Reach-version {a} s (next r st) =
      let (sb, up, within) = Reach-version s r in
      (Step-IsSound st sb, omega (arith, Step-version st sb), omega (arith, Step-version st sb))

  -- From a sound account, after any setters and reads, the version that is handed over is not one of
  -- an account that is being deleted, has not gone down, and is at most the first version of the
  -- next life.
  pub get_finalized-version :
      {a b : Account}
      → IsSound a
      → Reach a b
      → let v = (get_finalized lib b).final_state.version in
        (v % 3 ≢ 2) × (a.version ≤ v) × (v ≤ 3 * (a.version / 3) + 3)
  unfolding get_finalized
  get_finalized-version {a} {b} s r =
      ground (arith, Reach-version s r, IsSound.room (Reach-version s r).0)
