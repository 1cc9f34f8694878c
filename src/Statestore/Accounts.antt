-- ===== src/Statestore/Accounts.antt =====
-- What the queries answer of the accounts once a layer log has been persisted.
use mathlib.Core.List.{Memᴰ}
use teler.Base.{
  ℕ, ◌%◌, ◌≡◌, ◌≢◌, refl, sym, ap, ◌∙◌, subst, false, Option, none, some, List, Map, put, delete,
  get_or, ◌==◌, Bool-cases, Option-cases, inl, inr, arith, ◌⊎◌, done, for_each-total,
  for_each-After, for_each-Reached,
}
use teler.Types.{Library, AccountValue}
use teler.Statestore.{Store, get_account_value}
use teler.Statestore.Persist.{
  write_account, collect_old, persist_account, persist_entry, persist_accounts,
}

-- The account that an address has at a version, without a value.
abbrev pub no_account : Library → ℕ → AccountValue
no_account lib version = record {
  nonce = 0;
  balance = 0;
  code_hash = lib.empty_code_hash;
  dirty_storage = false;
  version = version;
}

-- What the world state hands over: no account that is being deleted, an account that was deleted has
-- no value, and one at version 0 is as it was below.
pub record IsHandedOver (lib : Library) (below : ℕ → AccountValue) (updated : Map AccountValue)
    : Type 0 where
  pub settled : (a : ℕ) (v : AccountValue) → updated a ≡ some v → v.version % 3 ≢ 2
  pub deleted :
      (a : ℕ) (v : AccountValue)
      → updated a ≡ some v
      → v.version % 3 ≡ 0
      → v ≡ no_account lib v.version
  pub absent : (a : ℕ) (v : AccountValue) → updated a ≡ some v → v.version ≡ 0 → below a ≡ v

module _ (lib : Library) (ds : Store) where
  persist_account-at :
      (w w' : Store) (addr : ℕ) (v : AccountValue)
      → v.version ≢ 0
      → (v.version % 3 ≡ 0 → v ≡ no_account lib v.version)
      → persist_account ds w addr v ≡ done w'
      → get_account_value lib w' addr ≡ v
  unfolding persist_account write_account collect_old get_account_value
  persist_account-at w w' addr v nonzero gone r = ground arith

  persist_account-other :
      (w w' : Store) (addr : ℕ) (v : AccountValue) (j : ℕ)
      → j ≢ addr
      → persist_account ds w addr v ≡ done w'
      → get_account_value lib w' j ≡ get_account_value lib w j
  unfolding persist_account write_account collect_old get_account_value
  persist_account-other w w' addr v j ne r = ground arith

  persist_account-zero :
      (w w' : Store) (addr : ℕ) (v : AccountValue)
      → v.version ≡ 0
      → persist_account ds w addr v ≡ done w'
      → w ≡ w'
  unfolding persist_account
  persist_account-zero w w' addr v zero_v r = ground arith

  persist_entry-other :
      (w w' : Store) (addr : ℕ) (o : Option AccountValue) (j : ℕ)
      → j ≢ addr
      → persist_entry ds w addr o ≡ done w'
      → get_account_value lib w' j ≡ get_account_value lib w j
  persist_entry-other w w' addr none j ne r = ground arith
  persist_entry-other w w' addr (some v) j ne r = persist_account-other w w' addr v j ne r

persist_account-total :
    (ds w : Store) (addr : ℕ) (v : AccountValue)
    → v.version % 3 ≢ 2
    → (w' : Store) × (persist_account ds w addr v ≡ done w')
unfolding persist_account write_account
persist_account-total ds w addr v ne = elim (Bool-cases (v.version == 0)) [
  | inl z ↦ (w, ground arith)
  | inr z ↦ elim (Bool-cases (v.version % 3 == 0)) [
    | inl d ↦ (
      collect_old ds
          (record w {
            account_values = delete w.account_values addr;
            account_versions = put w.account_versions addr v.version;
          })
          addr v,
      ground arith,
    )
    | inr d ↦ (
      collect_old ds
          (record w {
            account_values = put w.account_values addr v;
            account_versions = delete w.account_versions addr;
          })
          addr v,
      ground arith,
    )
  ]
]

persist_entry-none : (ds w w' : Store) (addr : ℕ) → persist_entry ds w addr none ≡ done w' → w ≡ w'
persist_entry-none ds w w' addr r = ground arith

module _ (lib : Library) (ds : Store) (updated : Map AccountValue)
    (handed : IsHandedOver lib (get_account_value lib ds) updated) (addr : ℕ) where
  -- The answer before the batch, and the one after it.
  before : AccountValue
  before = get_account_value lib ds addr

  after : AccountValue
  after = get_or (updated addr) before

  entry-same :
      (w w' : Store)
      → (get_account_value lib w addr ≡ before) ⊎ (get_account_value lib w addr ≡ after)
      → persist_entry ds w addr (updated addr) ≡ done w'
      → get_account_value lib w' addr ≡ after
  unfolding before after
  entry-same w w' was r = elim (Option-cases (updated addr)) [
    | inl is ↦
        kept (rw (is) refl)
          (persist_entry-none ds w w' addr (subst (λ o. persist_entry ds w addr o ≡ done w') is r))
    | inr (v, is) ↦
        let stored : persist_account ds w addr v ≡ done w' =
          subst (λ o. persist_entry ds w addr o ≡ done w') is r in
        elim (Bool-cases (v.version == 0)) [
          | inl z ↦
              kept (handed.absent addr v is (ground arith) ∙ rw (is) refl)
                (persist_account-zero lib ds w w' addr v (ground arith) stored)
          | inr z ↦
              persist_account-at lib ds w w' addr v (λ e. ground arith) (handed.deleted addr v is)
                stored
              ∙ rw (is) refl
        ]
  ]
    where
      kept : before ≡ after → w ≡ w' → get_account_value lib w' addr ≡ after
      kept same e =
          ap (λ u. get_account_value lib u addr) (sym e) ∙ elim was [ inl b ↦ b ∙ same | inr a ↦ a ]

  entry-other :
      (w w' : Store) (other : ℕ)
      → other ≢ addr
      → persist_entry ds w other (updated other) ≡ done w'
      → get_account_value lib w' addr ≡ get_account_value lib w addr
  entry-other w w' other ne r =
      persist_entry-other lib ds w w' other (updated other) addr (λ e. ne (sym e)) r

  -- After the loop the answer is the one handed over, or else the one before.
  pub persist_accounts-get_account_value :
      (order : List ℕ) (w w' : Store)
      → ((v : AccountValue) → updated addr ≡ some v → Memᴰ addr order)
      → get_account_value lib w addr ≡ get_account_value lib ds addr
      → persist_accounts ds order updated w ≡ done w'
      → get_account_value lib w' addr ≡ get_or (updated addr) (get_account_value lib ds addr)
  unfolding persist_accounts before after
  persist_accounts-get_account_value order w w' visited was r = elim (Option-cases (updated addr)) [
    | inl e ↦
        for_each-After (λ written a. persist_entry ds written a (updated a)) addr
          (λ w. get_account_value lib w addr) before (λ a. a ≡ after) entry-same entry-other order w
          w' (was ∙ rw (e) refl) r
    | inr (v, e) ↦
        for_each-Reached (λ written a. persist_entry ds written a (updated a)) addr
          (λ w. get_account_value lib w addr) before (λ a. a ≡ after) entry-same entry-other order w
          w' (visited v e) was r
  ]

-- No account that is being deleted: then the loop comes to its end.
pub persist_accounts-total :
    (ds : Store) (updated : Map AccountValue) (order : List ℕ) (w : Store)
    → ((a : ℕ) (v : AccountValue) → updated a ≡ some v → v.version % 3 ≢ 2)
    → (w' : Store) × (persist_accounts ds order updated w ≡ done w')
unfolding persist_accounts
persist_accounts-total ds updated order w settled =
    for_each-total (λ written addr. persist_entry ds written addr (updated addr)) one order w
  where
    one : (w : Store) (addr : ℕ) → (v : Store) × (persist_entry ds w addr (updated addr) ≡ done v)
    one w addr = elim (Option-cases (updated addr)) [
      | inl e ↦ (w, rw (e) refl)
      | inr (val, e) ↦
          let (v, is) = persist_account-total ds w addr val (settled addr val e) in (v, rw (e) is)
    ]
