-- ===== src/Worldstate/Account/Soundness.antt =====
-- The setters keep an account sound, and so does every read.
use teler.Base.{ℕ, ◌≡◌, ◌⊎◌, true, false, Option, some, List, arith}
use teler.Types.{Library}
use teler.Worldstate.Account.Object.{Account, Undo, get_state, code}
use teler.Worldstate.Account.Setters.{
  set_nonce, set_balance, set_state, self_destruct, create, set_code,
}
use teler.Worldstate.Account.Reverts.{layer_slot, slot, Same, IsSound}

pub Same-refl : (a : Account) → Same a a
Same-refl a = record { fields = ground arith; slots = λ key. ground arith }

pub Same-trans : (a b c : Account) → Same a b → Same b c → Same a c
Same-trans a b c p q = record {
  fields = ground arith;
  slots = λ key. ground (arith, p.slots key, q.slots key);
}

pub Same-sym : (a b : Account) → Same a b → Same b a
Same-sym a b p = record { fields = ground arith; slots = λ key. ground (arith, p.slots key) }

pub IsSound-Same : (a b : Account) → Same a b → IsSound a → IsSound b
IsSound-Same a b p s = record {
  room = ground (arith, s.room);
  bare = ground (arith, s.bare);
  clean = λ h key. ground (arith, p.slots key, s.clean (ground arith) key);
}

pub set_nonce-IsSound : (a : Account) (n : ℕ) → IsSound a → IsSound (set_nonce a n).0
unfolding set_nonce
set_nonce-IsSound a n s = record {
  room = ground (arith, s.room);
  bare = ground (arith, s.room, s.bare);
  clean = λ h key. ground (arith, s.room, s.clean (ground arith) key);
}

pub set_balance-IsSound : (a : Account) (n : ℕ) → IsSound a → IsSound (set_balance a n).0
unfolding set_balance
set_balance-IsSound a n s = record {
  room = ground (arith, s.room);
  bare = ground (arith, s.room, s.bare);
  clean = λ h key. ground (arith, s.room, s.clean (ground arith) key);
}

pub set_state-IsSound : (a : Account) (k v : ℕ) → IsSound a → IsSound (set_state a k v).0
unfolding set_state
set_state-IsSound a k v s = record {
  room = ground (arith, s.room);
  bare = ground (arith, s.room, s.bare);
  clean = λ h key. ground arith;
}

abbrev pub SoundIf : Option (Account × List Undo) → Type 0
SoundIf o = (r : Account × List Undo) → o ≡ some r → IsSound r.0

pub self_destruct-SoundIf : (a : Account) → IsSound a → SoundIf (self_destruct a)
unfolding self_destruct
self_destruct-SoundIf a s r e = record {
  room = ground (arith, s.room);
  bare = ground (arith, s.room, s.bare);
  clean = λ h key. ground (arith, s.room, s.clean (ground arith) key);
}

module _ (lib : Library) where
  pub create-SoundIf : (a : Account) → IsSound a → SoundIf (create lib a)
  unfolding create
  create-SoundIf a s r e = record {
    room = ground (arith, s.room);
    bare = ground (arith, s.room, s.bare);
    clean = λ h key. ground (arith, s.room, s.clean (ground arith) key);
  }

  pub set_code-SoundIf : (a : Account) (c : List ℕ) → IsSound a → SoundIf (set_code lib a c)
  unfolding set_code
  set_code-SoundIf a c s r e = record {
    room = ground (arith, s.room);
    bare = ground (arith, s.room, s.bare);
    clean = λ h key. ground (arith, s.room, s.clean (ground arith) key);
  }

  -- Reading the code keeps the account as it was.
  pub code-Same : (a : Account) → Same a (code lib a).1
  unfolding code
  code-Same a = record { fields = ground arith; slots = λ key. ground arith }

-- Reading a slot keeps the account as it was.
pub get_state-Same : (a : Account) (k : ℕ) → IsSound a → Same a (get_state a k).1
unfolding get_state layer_slot
get_state-Same a k s = record { fields = ground arith; slots = λ key. ground (arith, s.bare) }

-- On a sound account a read of a slot answers the slot where the account has storage, and else 0.
pub get_state_lem :
    (a : Account) (k : ℕ)
    → IsSound a
    → ((a.dirty_storage ≡ true) × ((get_state a k).0 ≡ slot a k))
      ⊎ ((a.dirty_storage ≡ false) × ((get_state a k).0 ≡ 0))
unfolding get_state layer_slot
get_state_lem a k s = ground (arith, s.bare)
