-- ===== src/Worldstate/Mutable/Observations.antt =====
-- What the EVM can read of two states that answer alike.
use mathlib.Core.Path.{ap₂}
use mathlib.Core.List.{map}
use teler.Worldstate.Committed.{annotate}
use teler.Worldstate.Committed
use teler.Base.{sym, ◌∙◌, ◌==◌, if◌then◌else◌, Bool-cases, inl, inr}
use teler.Base.{ap, refl, length}
use teler.Base.{
  ℕ, ◌≡◌, refl, sym, ◌∙◌, Option, none, some, List, inl, inr, Option-cases, arith, if◌then◌else◌,
  ◌==◌,
}
use teler.Types.{Library}
use teler.Worldstate.Account.Object.{Account}
use teler.Worldstate.Account.Object
use teler.Worldstate.Account.Reverts.{Same, IsSound, known}
use teler.Worldstate.Account.Soundness.{Same-refl, IsSound-Same, get_state_lem}
use teler.Worldstate.Mutable.State.{State, read_account}
use teler.Worldstate.Mutable.Entries.{SameEntry}
use teler.Worldstate.Mutable.Accounts
use teler.Worldstate.Mutable.Transaction
use teler.Worldstate.Mutable.Reverts.{SameState, IsSoundState}

-- Each query of MutableWorldState gives one answer on both.
pub record Answers (lib : Library) (s t : State) : Type 0 where
  pub exist : (a : ℕ) → Accounts.exist lib t a ≡ Accounts.exist lib s a
  pub is_empty : (a : ℕ) → Accounts.is_empty lib t a ≡ Accounts.is_empty lib s a
  pub balance : (a : ℕ) → Accounts.get_balance t a ≡ Accounts.get_balance s a
  pub nonce : (a : ℕ) → Accounts.get_nonce t a ≡ Accounts.get_nonce s a
  pub code_hash : (a : ℕ) → Accounts.get_code_hash t a ≡ Accounts.get_code_hash s a
  pub code : (a : ℕ) → (Accounts.get_code lib t a).0 ≡ (Accounts.get_code lib s a).0
  pub storage_root : (a : ℕ) → Accounts.get_storage_root lib t a ≡ Accounts.get_storage_root lib s a
  pub state : (a key : ℕ) → (Accounts.get_state t a key).0 ≡ (Accounts.get_state s a key).0
  pub committed_state :
      (a key : ℕ) → Accounts.get_committed_state t a key ≡ Accounts.get_committed_state s a key
  pub destructed : (a : ℕ) → Accounts.has_self_destructed t a ≡ Accounts.has_self_destructed s a
  pub transient :
      (a key : ℕ)
      → Transaction.get_transient_state t a key ≡ Transaction.get_transient_state s a key
  pub warm :
      (a : ℕ) → Transaction.address_in_access_list t a ≡ Transaction.address_in_access_list s a
  pub slot :
      (a key : ℕ)
      → Transaction.slot_in_access_list t a key ≡ Transaction.slot_in_access_list s a key
  pub refund : t.refund ≡ s.refund
  pub logs : t.logs ≡ s.logs
  -- GetLogs, with the annotation that it writes.
  pub logs_of :
      (hash number block_hash : ℕ)
      → (Transaction.get_logs t hash number block_hash).0
        ≡ (Transaction.get_logs s hash number block_hash).0
  pub code_size : (a : ℕ) → (Accounts.get_code_size lib t a).0 ≡ (Accounts.get_code_size lib s a).0
  -- TxIndex
  pub tx_index : t.tx_idx ≡ s.tx_idx

read_account-Same :
    (s t : State) (addr : ℕ) → SameState s t → Same (read_account s addr) (read_account t addr)
unfolding read_account
read_account-Same s t addr same =
    by_entry (s.dirty_accounts addr) (t.dirty_accounts addr) refl refl (same.accounts addr)
  where
    by_entry :
        (o p : Option Account)
        → s.dirty_accounts addr ≡ o
        → t.dirty_accounts addr ≡ p
        → SameEntry o p
        → Same (read_account s addr) (read_account t addr)
    by_entry none none e f h = rw (e, f, same.fields.parent, read_account) (Same-refl _)
    by_entry none (some b) e f h = absurd h
    by_entry (some a) none e f h = absurd h
    by_entry (some a) (some b) e f h = rw (e, f, read_account) h

code-known :
    (lib : Library) (a : Account)
    → (Object.code lib a).0 ≡ (if a.code_hash == lib.empty_code_hash then List.[] else known a)
unfolding Object.code
code-known lib a = ground arith

Same-code :
    (lib : Library) (a b : Account) → Same a b → (Object.code lib b).0 ≡ (Object.code lib a).0
Same-code lib a b h =
    let shown : ℕ → List ℕ → List ℕ =
      λ hash c. if hash == lib.empty_code_hash then List.[] else c in
    code-known lib b ∙ ap₂ shown h.fields.code_hash h.fields.code ∙ sym (code-known lib a)

Same-get_state :
    (a b : Account) (key : ℕ)
    → IsSound a
    → Same a b
    → (Object.get_state b key).0 ≡ (Object.get_state a key).0
Same-get_state a b key s h =
    ground (arith, h.slots key, get_state_lem a key s, get_state_lem b key (IsSound-Same a b h s))

IsSound-read_account : (s : State) (addr : ℕ) → IsSoundState s → IsSound (read_account s addr)
unfolding read_account
IsSound-read_account s addr h = elim (Option-cases (s.dirty_accounts addr)) [
  | inl e ↦ rw (e, read_account) (h.loads addr)
  | inr (a, e) ↦ rw (e, read_account) (h.dirty addr a e)
]

logs-of :
    (s : State) (hash number block_hash : ℕ)
    → (Transaction.get_logs s hash number block_hash).0 ≡ (
        if s.tx_hash == hash
        then map (annotate number block_hash) s.logs
        else (Committed.get_logs s.parent hash number block_hash).0)
unfolding Transaction.get_logs
logs-of s hash number block_hash = elim (Bool-cases (s.tx_hash == hash)) [
  | inl e ↦ rw (e) refl
  | inr e ↦ rw (e) refl
]

pub SameState-Answers :
    (lib : Library) (s t : State) → IsSoundState s → SameState s t → Answers lib s t
unfolding Accounts.get_code_size Accounts.exist Accounts.is_empty Accounts.get_balance
    Accounts.get_nonce Accounts.get_code_hash Accounts.get_code Accounts.get_storage_root
    Accounts.get_state Accounts.get_committed_state Accounts.has_self_destructed
    Transaction.get_transient_state Transaction.address_in_access_list
    Transaction.slot_in_access_list Object.exists Object.is_empty Object.has_self_destructed
SameState-Answers lib s t h same =
    let like = λ (a : ℕ). read_account-Same s t a same in
    record {
      exist = λ a. ground (arith, (like a).fields, same.fields);
      is_empty = λ a. ground (arith, (like a).fields);
      balance = λ a. (like a).fields.balance;
      nonce = λ a. (like a).fields.nonce;
      code_hash = λ a. (like a).fields.code_hash;
      code = λ a. Same-code lib _ _ (like a);
      storage_root = λ a. rw (like a).fields.dirty_storage;
      state = λ a key. Same-get_state _ _ key (IsSound-read_account s a h) (like a);
      committed_state = λ a key. rw same.fields.parent;
      destructed = λ a. rw (like a).fields.version;
      transient = λ a key. ground (arith, same.fields);
      warm = λ a. ground (arith, same.fields);
      slot = λ a key. rw (same.fields.access_storage, same.fields.access_address);
      refund = same.fields.refund;
      logs = same.fields.logs;
      logs_of = λ hash number block_hash.
          logs-of t hash number block_hash
          ∙ rw (same.fields.logs, same.fields.tx_hash, same.fields.parent)
              (sym (logs-of s hash number block_hash));
      code_size = λ a. ap length (Same-code lib _ _ (like a));
      tx_index = same.fields.tx_idx;
    }
