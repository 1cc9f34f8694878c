-- ===== src/Worldstate/Committed/HandedOver.antt =====
-- The accounts that the transactions of a block leave are such as the datastore takes over.
use teler.Base.{
  ℕ, ◌+◌, ◌*◌, ◌/◌, ◌%◌, ◌^◌, ◌<◌, ◌≡◌, ◌≢◌, refl, sym, ap, ◌∙◌, subst, false, none, some, List, [],
  ◌∷◌, Map, ◌==◌, ==_iff, Bool-cases, Option, Option-cases, inl, inr, arith,
}
use teler.Types.{Library, AccountValue}
use teler.Statestore.Accounts.{IsHandedOver, no_account}
use teler.Worldstate.Account.Object.{Account, new_mutable_account, get_state, code}
use teler.Worldstate.Account.Setters.{
  set_nonce, set_balance, set_state, self_destruct, create, set_code,
}
use teler.Worldstate.Account.Finalized.{Finalized, get_finalized}
use teler.Worldstate.Account.Reverts.{IsSound}
use teler.Worldstate.Account.Lifecycle.{
  Step, Reach, nonce, balance, state, destruct, created, coded, read_state, read_code, here, next,
  Reach-version,
}
use teler.Worldstate.Committed.{
  Log, Committed, account_value, get_mutable_account, apply_one, apply_accounts, apply_changes,
}

-- An account that does not exist has nothing.
abbrev pub IsBlank : Library → Account → Type 0
IsBlank lib a =
    a.version % 3 ≡ 0
    → (a.nonce ≡ 0)
      × (a.balance ≡ 0)
      × (a.code_hash ≡ lib.empty_code_hash)
      × (a.dirty_storage ≡ false)

module _ (lib : Library) where
  Step-IsBlank : {a b : Account} → Step lib a b → IsSound a → IsBlank lib a → IsBlank lib b
  unfolding set_nonce set_balance set_state self_destruct create set_code get_state code
  Step-IsBlank (nonce n) s blank = λ z. ground (arith, s.room, blank)
  Step-IsBlank (balance n) s blank = λ z. ground (arith, s.room, blank)
  Step-IsBlank (state k v) s blank = λ z. ground (arith, s.room, blank)
  Step-IsBlank (destruct r e) s blank = λ z. ground (arith, s.room, blank)
  Step-IsBlank (created r e) s blank = λ z. ground (arith, s.room, blank)
  Step-IsBlank (coded c r e) s blank = λ z. ground (arith, s.room, blank)
  Step-IsBlank (read_state k) s blank = λ z. ground (arith, blank)
  Step-IsBlank read_code s blank = λ z. ground (arith, blank)

  Reach-IsBlank : {a b : Account} → Reach lib a b → IsSound a → IsBlank lib a → IsBlank lib b
  Reach-IsBlank here s blank = blank
  Reach-IsBlank (next r step) s blank =
      Step-IsBlank step (Reach-version lib s r).0 (Reach-IsBlank r s blank)

  -- What may be handed over for an account that was `below` under the block.
  pub record IsSettled (below v : AccountValue) : Type 0 where
    pub settled : v.version % 3 ≢ 2
    pub deleted : v.version % 3 ≡ 0 → v ≡ no_account lib v.version
    pub absent : v.version ≡ 0 → below ≡ v

  finalized-blank :
      (b : Account)
      → IsBlank lib b
      → 3 * (b.version / 3) + 3 < 2 ^ 64
      → let v = (get_finalized lib b).final_state in
        v.version % 3 ≡ 0 → v ≡ no_account lib v.version
  unfolding get_finalized
  finalized-blank b bare room z = elim (Bool-cases (b.version % 3 == 2)) [
    | inl e ↦ rw (e) refl
    | inr e ↦ ground (arith, bare)
  ]

  get_finalized-IsSettled :
      (below : AccountValue) (a b : Account)
      → IsSound a
      → IsBlank lib a
      → (a.version ≡ 0 → below ≡ no_account lib 0)
      → Reach lib a b
      → IsSettled below (get_finalized lib b).final_state
  unfolding get_finalized
  get_finalized-IsSettled below a b s blank absent r =
      let (sb, up, within) = Reach-version lib s r in
      let bare = Reach-IsBlank r s blank in
      record {
        settled = ground (arith, sb.room);
        deleted = λ z. finalized-blank b bare (sb.room) z;
        absent = λ z.
            absent (ground (arith, sb.room, up))
            ∙ sym (finalized-blank b bare sb.room (ground (arith, z)) ∙ ap (no_account lib) z);
      }

  -- The accounts of the state so far may be handed over, on a layer whose accounts may be.
  pub record IsHandedOverBlock (s : Committed) : Type 0 where
    pub under : (a : ℕ) → IsSettled (s.parent.get_account_value a) (s.parent.get_account_value a)
    pub over :
        (a : ℕ) (v : AccountValue)
        → s.committed_accounts a ≡ some v
        → IsSettled (s.parent.get_account_value a) v

  account_value-IsSettled :
      (s : Committed) (addr : ℕ)
      → IsHandedOverBlock s
      → IsSettled (s.parent.get_account_value addr) (account_value s addr)
  unfolding account_value
  account_value-IsSettled s addr h = elim (Option-cases (s.committed_accounts addr)) [
    | inl e ↦ subst (IsSettled (s.parent.get_account_value addr)) (rw (e) refl) (h.under addr)
    | inr (v, e) ↦
        subst (IsSettled (s.parent.get_account_value addr)) (rw (e) refl) (h.over addr v e)
  ]

  -- What a transaction did to an account that it has loaded.
  loaded-IsSettled :
      (s : Committed) (addr : ℕ) (b : Account)
      → IsHandedOverBlock s
      → IsSound (get_mutable_account s addr)
      → Reach lib (get_mutable_account s addr) b
      → IsSettled (s.parent.get_account_value addr) (get_finalized lib b).final_state
  unfolding get_mutable_account new_mutable_account
  loaded-IsSettled s addr b h sound r =
      let first = account_value-IsSettled s addr h in
      let v = account_value s addr in
      get_finalized-IsSettled (s.parent.get_account_value addr) (get_mutable_account s addr) b sound
        (λ z.
          let is = first.deleted z in
          (
            ap (λ w. w.nonce) is,
            ap (λ w. w.balance) is,
            ap (λ w. w.code_hash) is,
            ap (λ w. w.dirty_storage) is,
          ))
        (λ z. first.absent z ∙ first.deleted (ap (λ n. n % 3) z) ∙ ap (no_account lib) z) r

  apply_one-IsHandedOverBlock :
      (s : Committed) (addr : ℕ) (f : Finalized)
      → IsSettled (s.parent.get_account_value addr) f.final_state
      → IsHandedOverBlock s
      → IsHandedOverBlock (apply_one s addr f)
  unfolding apply_one
  apply_one-IsHandedOverBlock s addr f settled h = record {
    under = h.under;
    over = λ a v e. elim (Bool-cases (a == addr)) [
      | inl t ↦
          let same = (==_iff a addr).0 t in
          subst (λ b. IsSettled (s.parent.get_account_value b) v) (sym same)
            (subst (IsSettled (s.parent.get_account_value addr)) (ground arith) settled)
      | inr t ↦ h.over a v (ground arith)
    ];
  }

  -- One turn of the loop.
  abbrev turn : Committed → ℕ → Option Account → Committed
  turn s addr o = elim o [ none ↦ s | some acct ↦ apply_one s addr (get_finalized lib acct) ]

  turn-IsHandedOverBlock :
      (s : Committed) (addr : ℕ) (o : Option Account)
      → ((a : Account)
          → o ≡ some a
          → IsSettled (s.parent.get_account_value addr) (get_finalized lib a).final_state)
      → IsHandedOverBlock s
      → IsHandedOverBlock (turn s addr o) × ((turn s addr o).parent ≡ s.parent)
  unfolding apply_one
  turn-IsHandedOverBlock s addr none each h = (h, refl)
  turn-IsHandedOverBlock s addr (some a) each h =
      (apply_one-IsHandedOverBlock s addr (get_finalized lib a) (each a refl) h, refl)

  apply_accounts-IsHandedOverBlock :
      (order : List ℕ) (s : Committed) (dirty : Map Account)
      → ((addr : ℕ) (a : Account)
          → dirty addr ≡ some a
          → IsSettled (s.parent.get_account_value addr) (get_finalized lib a).final_state)
      → IsHandedOverBlock s
      → IsHandedOverBlock (apply_accounts lib s order dirty)
        × ((apply_accounts lib s order dirty).parent ≡ s.parent)
  unfolding apply_accounts
  apply_accounts-IsHandedOverBlock [] s dirty each h = (h, refl)
  apply_accounts-IsHandedOverBlock (addr ∷ rest) s dirty each h =
      let t = turn s addr (dirty addr) in
      let (turned, same) = turn-IsHandedOverBlock s addr (dirty addr) (each addr) h in
      let (after, kept) =
        apply_accounts-IsHandedOverBlock rest t dirty
          (λ b a e.
            subst (λ p. IsSettled (p.get_account_value b) (get_finalized lib a).final_state)
              (sym same) (each b a e))
          turned in
      (after, kept ∙ same)

-- On a layer whose accounts may be handed over, and after transactions whose accounts may be: a
-- further transaction that has loaded its dirty accounts, sound ones, and has taken each through
-- setters and reads only, leaves accounts that PersistLayerLog takes over, with no account that is
-- being deleted, none that has been deleted with a value, and none at version 0 that was not so
-- before; and this holds of the state again.
pub apply_changes-IsHandedOver :
    (lib : Library) (s : Committed) (order : List ℕ) (tx_hash : ℕ) (logs : List Log)
    (dirty : Map Account)
    → IsHandedOverBlock lib s
    → ((addr : ℕ) (a : Account)
        → dirty addr ≡ some a
        → IsSound (get_mutable_account s addr) × Reach lib (get_mutable_account s addr) a)
    → IsHandedOver lib s.parent.get_account_value
        (apply_changes lib s order tx_hash logs dirty).committed_accounts
      × IsHandedOverBlock lib (apply_changes lib s order tx_hash logs dirty)
unfolding apply_changes
apply_changes-IsHandedOver lib s order tx_hash logs dirty h each =
    let (after, same) =
      apply_accounts-IsHandedOverBlock lib order s dirty
        (λ addr a e. loaded-IsSettled lib s addr a h (each addr a e).0 (each addr a e).1) h in
    (
      record {
        settled = λ a v e. (after.over a v e).settled;
        deleted = λ a v e. (after.over a v e).deleted;
        absent =
            λ a v e z. ap (λ p. p.get_account_value a) (sym same) ∙ (after.over a v e).absent z;
      },
      record { under = after.under; over = after.over },
    )
