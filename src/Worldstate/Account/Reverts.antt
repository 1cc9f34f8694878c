-- ===== src/Worldstate/Account/Reverts.antt =====
-- The closure that a setter of an account hands back undoes the setter, up to what the account
-- keeps of its layer's answers.
use teler.Base.{
  ℕ, ◌+◌, ◌*◌, ◌/◌, ◌%◌, ◌^◌, ◌<◌, ◌≡◌, Bool, false, Option, some, List, get_or, if◌then◌else◌,
  arith,
}
use teler.Types.{Library}
use teler.Worldstate.Layer.{Layer}
use teler.Worldstate.Account.Object.{Account, Undo, undo}
use teler.Worldstate.Account.Setters.{
  set_nonce, set_balance, set_state, self_destruct, create, set_code,
}

-- The slot as the layer has it, in the life of the account to which the version belongs: its three
-- versions are 3 n, 3 n + 1 and 3 n + 2, and the slots are kept under 3 n + 1.
unfoldable pub layer_slot : Layer → ℕ → Bool → ℕ → ℕ → ℕ
layer_slot parent addr overriden life key =
    if overriden then 0 else parent.get_storage_by_version addr (3 * life + 1) key

abbrev pub base : Account → ℕ → ℕ
base a key = layer_slot a.parent a.addr a.overriden (a.version / 3) key

-- A slot, whether or not it has been read.
abbrev pub slot : Account → ℕ → ℕ
slot a key = get_or (a.known_storage key) (base a key)

-- The code, whether or not it has been read.
abbrev pub known : Account → List ℕ
known a = get_or a.known_code (a.parent.get_code_by_hash a.code_hash)

pub record SameFields (a b : Account) : Type 0 where
  pub parent : b.parent ≡ a.parent
  pub addr : b.addr ≡ a.addr
  pub nonce : b.nonce ≡ a.nonce
  pub balance : b.balance ≡ a.balance
  pub code_hash : b.code_hash ≡ a.code_hash
  pub dirty_storage : b.dirty_storage ≡ a.dirty_storage
  pub version : b.version ≡ a.version
  pub overriden : b.overriden ≡ a.overriden
  pub code : known b ≡ known a

-- Two accounts that answer alike, now and after the same changes.
pub record Same (a b : Account) : Type 0 where
  pub fields : SameFields a b
  pub slots : (key : ℕ) → slot b key ≡ slot a key

-- What the constructor and every setter keep: the version has room in its life, an account that
-- does not exist has no storage, and one without storage has nothing kept but the layer's slots.
pub record IsSound (a : Account) : Type 0 where
  pub room : 3 * (a.version / 3) + 3 < 2 ^ 64
  pub bare : a.version % 3 ≡ 0 → a.dirty_storage ≡ false
  pub clean : a.dirty_storage ≡ false → (key : ℕ) → slot a key ≡ base a key

-- The closure undoes the setter on any account that is as the setter left it.
abbrev pub Undoes : Account → Account × List Undo → Type 0
Undoes a r = (b : Account) → Same r.0 b → Same a (undo r.1 b)

pub Undoes-set_nonce : (a : Account) (n : ℕ) → IsSound a → Undoes a (set_nonce a n)
unfolding set_nonce undo
Undoes-set_nonce a n s b same = record {
  fields = ground (arith, s.room);
  slots = λ key. ground (arith, same.slots key, s.room);
}

pub Undoes-set_balance : (a : Account) (n : ℕ) → IsSound a → Undoes a (set_balance a n)
unfolding set_balance undo
Undoes-set_balance a n s b same = record {
  fields = ground (arith, s.room);
  slots = λ key. ground (arith, same.slots key, s.room);
}

pub Undoes-set_state : (a : Account) (k v : ℕ) → IsSound a → Undoes a (set_state a k v)
unfolding set_state undo
Undoes-set_state a k v s b same = record {
  fields = ground (arith, s.room, s.bare);
  slots =
      λ key. ground (arith, same.slots key, s.room, λ (h : a.dirty_storage ≡ false). s.clean h key);
}

abbrev pub UndoesIf : Account → Option (Account × List Undo) → Type 0
UndoesIf a o = (r : Account × List Undo) → o ≡ some r → Undoes a r

pub UndoesIf-self_destruct : (a : Account) → IsSound a → UndoesIf a (self_destruct a)
unfolding self_destruct undo
UndoesIf-self_destruct a s r e b same = record {
  fields = ground (arith, s.room);
  slots = λ key. ground (arith, same.slots key, s.room);
}

module _ (lib : Library) where
  pub UndoesIf-create : (a : Account) → IsSound a → UndoesIf a (create lib a)
  unfolding create undo
  UndoesIf-create a s r e b same = record {
    fields = ground (arith, s.room);
    slots = λ key. ground (arith, same.slots key, s.room);
  }

  pub UndoesIf-set_code : (a : Account) (c : List ℕ) → IsSound a → UndoesIf a (set_code lib a c)
  unfolding set_code undo
  UndoesIf-set_code a c s r e b same = record {
    fields = ground (arith, s.room);
    slots = λ key. ground (arith, same.slots key, s.room);
  }
