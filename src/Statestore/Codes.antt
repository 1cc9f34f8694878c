-- ===== src/Statestore/Codes.antt =====
-- The codes that a state shares between its accounts: what their counts are once a layer log has been
-- persisted.
use mathlib.Core.List.{Memᴰ}
use teler.Base.{
  ℕ, ◌^◌, ◌<◌, ◌≡◌, ◌≢◌, refl, sym, ap, ◌∙◌, subst, Option, none, some, List, ◌==◌, add64, if-false,
  Bool-cases, Option-cases, ◌⊎◌, inl, inr, arith, done, for_each-After, for_each-Reached,
}
use teler.Types.{LayerLog}
use teler.Statestore.{CodeValue, Store}
use teler.Statestore.Persist.{count_known, write_count, persist_code, persist_codes}

-- How many accounts have the code.
abbrev pub count_of : Option CodeValue → ℕ
count_of none = 0
count_of (some v) = v.count

abbrev pub code_count : Store → ℕ → ℕ
code_count s code_hash = count_of (s.codes code_hash)

-- An entry stands for one account at least, and its count is not negative.
abbrev pub IsCountedEntry : Option CodeValue → Type 0
IsCountedEntry entry = (v : CodeValue) → entry ≡ some v → (v.count ≢ 0) × (v.count < 2 ^ 63)

abbrev pub IsCounted : Store → Type 0
IsCounted s = (code_hash : ℕ) → IsCountedEntry (s.codes code_hash)

count_known-count :
    (w w' : Store) (h diff : ℕ) (existing : CodeValue)
    → count_known w h diff existing ≡ done w'
    → count_of (w'.codes h) ≡ add64 existing.count diff
count_known-count w w' h diff existing r = ground arith

count_known-IsCountedEntry :
    (w w' : Store) (h diff : ℕ) (existing : CodeValue)
    → count_known w h diff existing ≡ done w'
    → IsCountedEntry (w'.codes h)
count_known-IsCountedEntry w w' h diff existing r v is = (λ e. ground arith, ground arith)

count_new-count :
    (w w' : Store) (h diff : ℕ) (preimage : Option (List ℕ))
    → diff < 2 ^ 64
    → write_count w h diff preimage none ≡ done w'
    → count_of (w'.codes h) ≡ add64 0 diff
count_new-count w w' h diff none bounded r = ground arith
count_new-count w w' h diff (some code) bounded r = ground arith

count_new-IsCountedEntry :
    (w w' : Store) (h diff : ℕ) (preimage : Option (List ℕ))
    → diff ≢ 0
    → write_count w h diff preimage none ≡ done w'
    → IsCountedEntry (w'.codes h)
count_new-IsCountedEntry w w' h diff none nonzero r v is = ground arith
count_new-IsCountedEntry w w' h diff (some code) nonzero r v is = (λ e. ground arith, ground arith)

module _ (ds : Store) (log : LayerLog) (counted : IsCounted ds) (h : ℕ)
    (bounded : log.updated_code_count h < 2 ^ 64) where
  -- The count has moved by the log's difference.
  diff : ℕ
  diff = log.updated_code_count h

  abbrev pub Moved : Option CodeValue → Type 0
  Moved entry =
      (count_of entry ≡ add64 (code_count ds h) (log.updated_code_count h)) × IsCountedEntry entry

  unmoved : log.updated_code_count h ≡ 0 → Moved (ds.codes h)
  unmoved z = elim (Option-cases (ds.codes h)) [
    | inl is ↦ (rw (is, z) refl, counted h)
    | inr (v, is) ↦ let (nonzero, small) = counted h v is in (rw (is, z) (omega arith), counted h)
  ]

  code-here :
      (w w' : Store)
      → (w.codes h ≡ ds.codes h) ⊎ Moved (w.codes h)
      → persist_code ds w log h ≡ done w'
      → Moved (w'.codes h)
  unfolding persist_code diff
  code-here w w' was r = elim (Bool-cases (diff == 0)) [
    | inl z ↦
        let same : w ≡ w' = ground arith in
        subst (λ u. Moved (u.codes h)) same
          (elim was [
            | inl old ↦ subst Moved (sym old) (unmoved (ground arith))
            | inr moved ↦ moved
          ])
    | inr z ↦
        let counting : write_count w h diff (log.code_preimage h) (ds.codes h) ≡ done w' =
          if-false (diff == 0) (done w) (write_count w h diff (log.code_preimage h) (ds.codes h)) z
            r in
        elim (Option-cases (ds.codes h)) [
          | inl is ↦
              let writing =
                subst (λ o. write_count w h diff (log.code_preimage h) o ≡ done w') is counting in
              (
                count_new-count w w' h diff (log.code_preimage h) bounded writing
                    ∙ ap (λ o. add64 (count_of o) diff) (sym is),
                count_new-IsCountedEntry w w' h diff (log.code_preimage h) (λ e. ground arith)
                    writing,
              )
          | inr (existing, is) ↦
              let writing =
                subst (λ o. write_count w h diff (log.code_preimage h) o ≡ done w') is counting in
              (
                count_known-count w w' h diff existing writing
                    ∙ ap (λ o. add64 (count_of o) diff) (sym is),
                count_known-IsCountedEntry w w' h diff existing writing,
              )
        ]
  ]

  code-other :
      (w w' : Store) (other : ℕ)
      → other ≢ h
      → persist_code ds w log other ≡ done w'
      → w'.codes h ≡ w.codes h
  unfolding persist_code
  code-other w w' other ne r = ground arith

  pub persist_codes-Moved :
      (order : List ℕ) (w w' : Store)
      → (log.updated_code_count h ≢ 0 → Memᴰ h order)
      → w.codes h ≡ ds.codes h
      → persist_codes ds order log w ≡ done w'
      → Moved (w'.codes h)
  unfolding persist_codes
  persist_codes-Moved order w w' visited was r = elim (Bool-cases (log.updated_code_count h == 0)) [
    | inl z ↦
        for_each-After (λ u k. persist_code ds u log k) h (λ u. u.codes h) (ds.codes h) Moved
          code-here code-other order w w' (subst Moved (sym was) (unmoved (ground arith))) r
    | inr z ↦
        for_each-Reached (λ u k. persist_code ds u log k) h (λ u. u.codes h) (ds.codes h) Moved
          code-here code-other order w w' (visited (λ e. ground arith)) was r
  ]
