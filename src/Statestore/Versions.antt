-- ===== src/Statestore/Versions.antt =====
-- The versions of the accounts, and the marks on those that are gone, through the loop over the
-- accounts of a layer log.
use teler.Base.{
  ℕ, zero, suc, ◌+◌, ◌-◌, ◌≤◌, ◌<◌, ◌≡◌, ◌≢◌, refl, sym, ap, ◌∙◌, subst, Bool, true, none, some,
  List, Map, update, if◌then◌else◌, ◌==◌, ==_iff, Bool-cases, Option-cases, ◌⊎◌, inl, inr, arith,
  done, for_each-Kept, for_each-After, for_each-Reached,
}
use mathlib.Core.List.{Memᴰ}
use teler.Types.{AccountValue}
use teler.Statestore.{Store}
use teler.Statestore.Persist.{
  committed_version, notify_gc, write_account, collect_old, persist_account, persist_entry,
  persist_accounts,
}

-- The versions of accounts do not go down.
abbrev pub IsForward : Store → Map AccountValue → Type 0
IsForward ds updated =
    (a : ℕ) (v : AccountValue)
    → updated a ≡ some v
    → v.version ≢ 0
    → committed_version ds a ≤ v.version

-- Which marks a loop sets.
notify_gc-only :
    (rounds : ℕ) (gc : ℕ → ℕ → Bool) (addr version b i : ℕ)
    → notify_gc gc addr version rounds b i ≡ true
    → (gc b i ≡ true) ⊎ ((b ≡ addr) × (i < version + rounds))
unfolding notify_gc
notify_gc-only zero gc addr version b i marked = inl marked
notify_gc-only (suc rounds) gc addr version b i marked =
    elim (notify_gc-only rounds (update gc addr (update (gc addr) version true)) addr (version + 1)
      b i marked) [
        | inl before ↦ elim (Bool-cases (b == addr)) [
          | inl e ↦ elim (Bool-cases (i == version)) [
            | inl same ↦ inr (ground arith, ground arith)
            | inr other ↦
                inl (subst (λ a. gc a i ≡ true) (sym ((==_iff b addr).0 e)) (ground arith))
          ]
          | inr ne ↦ inl (ground arith)
        ]
        | inr (same, below) ↦ inr (same, omega arith)
      ]

module _ (ds : Store) (updated : Map AccountValue) where
  -- The version that an address has after the loop.
  pub latest : ℕ → ℕ
  latest a = elim (updated a) [
    | none ↦ committed_version ds a
    | some v ↦ if v.version == 0 then committed_version ds a else v.version
  ]

  latest-none : (a : ℕ) → updated a ≡ none → latest a ≡ committed_version ds a
  unfolding latest
  latest-none a is = rw (is, latest) refl

  latest-zero :
      (a : ℕ) (v : AccountValue)
      → updated a ≡ some v
      → v.version ≡ 0
      → latest a ≡ committed_version ds a
  unfolding latest
  latest-zero a v is z = rw (is, latest) (ground arith)

  latest-some :
      (a : ℕ) (v : AccountValue) → updated a ≡ some v → v.version ≢ 0 → latest a ≡ v.version
  unfolding latest
  latest-some a v is nonzero = rw (is, latest) (ground arith)

  persist_account-version :
      (w w' : Store) (a : ℕ) (v : AccountValue)
      → v.version ≢ 0
      → persist_account ds w a v ≡ done w'
      → committed_version w' a ≡ v.version
  unfolding persist_account write_account collect_old committed_version
  persist_account-version w w' a v nonzero r = ground arith

  persist_account-version_other :
      (w w' : Store) (a b : ℕ) (v : AccountValue)
      → b ≢ a
      → persist_account ds w a v ≡ done w'
      → committed_version w' b ≡ committed_version w b
  unfolding persist_account write_account collect_old committed_version
  persist_account-version_other w w' a b v ne r = ground arith

  persist_account-zero_kept :
      (w w' : Store) (a : ℕ) (v : AccountValue)
      → v.version ≡ 0
      → persist_account ds w a v ≡ done w'
      → w ≡ w'
  unfolding persist_account
  persist_account-zero_kept w w' a v z r = ground arith

  persist_account-gc :
      (w w' : Store) (a : ℕ) (v : AccountValue)
      → persist_account ds w a v ≡ done w'
      → (w'.gc ≡ w.gc)
        ⊎ (w'.gc ≡ notify_gc w.gc a (committed_version ds a) (v.version - committed_version ds a))
  unfolding persist_account write_account collect_old
  persist_account-gc w w' a v r = ground arith

  entry-kept : (w w' : Store) (a : ℕ) → persist_entry ds w a none ≡ done w' → w ≡ w'
  entry-kept w w' a r = ground arith

  -- What a round of the loop does to the marks, on versions that do not go down.
  entry-marks :
      (w w' : Store) (a : ℕ)
      → IsForward ds updated
      → persist_entry ds w a (updated a) ≡ done w'
      → ((b i : ℕ) → w.gc b i ≡ true → i < latest b)
      → (b i : ℕ) → w'.gc b i ≡ true
      → i < latest b
  entry-marks w w' a forward r marks b i marked = elim (Option-cases (updated a)) [
    | inl is ↦
        let same = entry-kept w w' a (subst (λ o. persist_entry ds w a o ≡ done w') is r) in
        marks b i (ap (λ t. t.gc b i) same ∙ marked)
    | inr (v, is) ↦
        let stored : persist_account ds w a v ≡ done w' =
          subst (λ o. persist_entry ds w a o ≡ done w') is r in
        elim (Bool-cases (v.version == 0)) [
          | inl z ↦
              let same = persist_account-zero_kept w w' a v (ground arith) stored in
              marks b i (ap (λ t. t.gc b i) same ∙ marked)
          | inr z ↦ elim (persist_account-gc w w' a v stored) [
            | inl same ↦ marks b i (sym (ap (λ g. g b i) same) ∙ marked)
            | inr noted ↦
                elim (notify_gc-only (v.version - committed_version ds a) w.gc a
                  (committed_version ds a) b i (sym (ap (λ g. g b i) noted) ∙ marked)) [
                    | inl before ↦ marks b i before
                    | inr (same, below) ↦
                        let nonzero : v.version ≢ 0 = λ e. ground arith in
                        let up = forward a v is nonzero in
                        let top = ap latest same ∙ latest-some a v is nonzero in omega arith
                  ]
          ]
        ]
  ]

  entry-version :
      (w w' : Store) (a : ℕ)
      → (committed_version w a ≡ committed_version ds a) ⊎ (committed_version w a ≡ latest a)
      → persist_entry ds w a (updated a) ≡ done w'
      → committed_version w' a ≡ latest a
  entry-version w w' a was r = elim (Option-cases (updated a)) [
    | inl is ↦
        kept (latest-none a is)
          (entry-kept w w' a (subst (λ o. persist_entry ds w a o ≡ done w') is r))
    | inr (v, is) ↦
        let stored : persist_account ds w a v ≡ done w' =
          subst (λ o. persist_entry ds w a o ≡ done w') is r in
        elim (Bool-cases (v.version == 0)) [
          | inl z ↦
              kept (latest-zero a v is (ground arith))
                (persist_account-zero_kept w w' a v (ground arith) stored)
          | inr z ↦
              persist_account-version w w' a v (λ e. ground arith) stored
              ∙ sym (latest-some a v is (λ e. ground arith))
        ]
  ]
    where
      kept : latest a ≡ committed_version ds a → w ≡ w' → committed_version w' a ≡ latest a
      kept same e =
          ap (λ u. committed_version u a) (sym e) ∙ elim was [ inl b ↦ b ∙ sym same | inr t ↦ t ]

  entry-version_other :
      (w w' : Store) (a b : ℕ)
      → b ≢ a
      → persist_entry ds w b (updated b) ≡ done w'
      → committed_version w' a ≡ committed_version w a
  entry-version_other w w' a b ne r = elim (Option-cases (updated b)) [
    | inl is ↦
        ap (λ u. committed_version u a)
          (sym (entry-kept w w' b (subst (λ o. persist_entry ds w b o ≡ done w') is r)))
    | inr (v, is) ↦
        persist_account-version_other w w' b a v (λ e. ne (sym e))
          (subst (λ o. persist_entry ds w b o ≡ done w') is r)
  ]

  -- The version after the loop.
  pub persist_accounts-version :
      (order : List ℕ) (w w' : Store) (a : ℕ)
      → ((v : AccountValue) → updated a ≡ some v → Memᴰ a order)
      → committed_version w a ≡ committed_version ds a
      → persist_accounts ds order updated w ≡ done w'
      → committed_version w' a ≡ latest a
  unfolding persist_accounts
  persist_accounts-version order w w' a visited was r = elim (Option-cases (updated a)) [
    | inl is ↦
        for_each-After (λ t k. persist_entry ds t k (updated k)) a (λ t. committed_version t a)
          (committed_version ds a) (λ n. n ≡ latest a) (λ s t. entry-version s t a)
          (λ s t other. entry-version_other s t a other) order w w' (was ∙ sym (latest-none a is)) r
    | inr (v, is) ↦
        for_each-Reached (λ t k. persist_entry ds t k (updated k)) a (λ t. committed_version t a)
          (committed_version ds a) (λ n. n ≡ latest a) (λ s t. entry-version s t a)
          (λ s t other. entry-version_other s t a other) order w w' (visited v is) was r
  ]

  pub persist_accounts-marks :
      (order : List ℕ) (w w' : Store)
      → IsForward ds updated
      → persist_accounts ds order updated w ≡ done w'
      → ((b i : ℕ) → w.gc b i ≡ true → i < latest b)
      → (b i : ℕ) → w'.gc b i ≡ true
      → i < latest b
  unfolding persist_accounts
  persist_accounts-marks order w w' forward r marks =
      for_each-Kept (λ t k. persist_entry ds t k (updated k))
        (λ t. (b i : ℕ) → t.gc b i ≡ true → i < latest b)
        (λ s t k step kept. entry-marks s t k forward step kept) order w w' r marks

  -- Versions do not go down.
  pub latest-up : IsForward ds updated → (a : ℕ) → committed_version ds a ≤ latest a
  latest-up forward a = elim (Option-cases (updated a)) [
    | inl is ↦ omega (arith, latest-none a is)
    | inr (v, is) ↦ elim (Bool-cases (v.version == 0)) [
      | inl z ↦ omega (arith, latest-zero a v is (ground arith))
      | inr z ↦
          let nonzero : v.version ≢ 0 = λ e. ground arith in
          omega (arith, latest-some a v is nonzero, forward a v is nonzero)
    ]
  ]
