-- ===== src/Statestore/Collect/Safe.antt =====
-- The marked versions are gone, through any run of the routine and of batches, so that clearing them
-- is not seen.
use teler.Base.{
  ℕ, ◌≤◌, ◌<◌, ◌≡◌, refl, sym, ap, ◌∙◌, subst, true, some, List, [], ◌∷◌, ◌==◌, ==_iff, Bool-cases,
  inl, inr, arith, done,
}
use mathlib.Core.List.{Memᴰ}
use teler.Types.{AccountValue, LayerLog}
use teler.Statestore.{Store, get_storage_by_version}
use teler.Statestore.Versions.{
  IsForward, latest, latest-up, persist_accounts-version, persist_accounts-marks,
}
use teler.Statestore.Answers.{persist_layer_log-steps, codes-frame}
use teler.Statestore.Persist.{committed_version, persist_layer_log, persist_storage}
use teler.Statestore.Collect.{Routine, Step, collect_one, collect_next}

-- A mark is on a version below the one under which the account stands.
abbrev pub IsSuperseded : Store → Type 0
IsSuperseded s = (a i : ℕ) → s.gc a i ≡ true → i < committed_version s a

-- What is to be cleared is gone too.
abbrev pub IsSafe : Routine → Type 0
IsSafe s = IsSuperseded s.ds × ((a i : ℕ) → Memᴰ (a, i) s.pending → i < committed_version s.ds a)

same_version :
    (s t : Store) (a : ℕ)
    → s.account_values ≡ t.account_values
    → s.account_versions ≡ t.account_versions
    → committed_version s a ≡ committed_version t a
unfolding committed_version
same_version s t a values versions =
    let at_values = ap (λ m. m a) values in let at_versions = ap (λ m. m a) versions in ground arith

persisted-IsSafe :
    (s : Routine) (w ds : Store) (log : LayerLog) (accounts codes : List ℕ)
    → IsForward s.ds log.updated_accounts
    → ((a : ℕ) (v : AccountValue) → log.updated_accounts a ≡ some v → Memᴰ a accounts)
    → w.account_values ≡ s.ds.account_values
    → w.account_versions ≡ s.ds.account_versions
    → w.gc ≡ s.ds.gc
    → persist_layer_log s.ds w log accounts codes ≡ done ds
    → IsSafe s
    → IsSafe (record s { ds = ds })
unfolding persist_storage
persisted-IsSafe s w ds log accounts codes forward visited values versions gc r (marked, listed) =
    let (u, v, first, second, is) = persist_layer_log-steps s.ds w ds log accounts codes r in
    let (values', versions', slots', gc') = codes-frame s.ds w ds log accounts codes r u v second in
    let start = record w { persisted = some (log.block_number, log.root_hash) } in
    let top : (a : ℕ) → committed_version ds a ≡ latest s.ds log.updated_accounts a = λ a.
      same_version ds u a (ap (λ t. t.account_values) is ∙ values')
        (ap (λ t. t.account_versions) is ∙ versions')
      ∙ persist_accounts-version s.ds log.updated_accounts accounts start u a (visited a)
          (same_version start s.ds a values versions) first in
    let up : (a : ℕ) → committed_version s.ds a ≤ latest s.ds log.updated_accounts a =
      latest-up s.ds log.updated_accounts forward in
    let marks : (b i : ℕ) → u.gc b i ≡ true → i < latest s.ds log.updated_accounts b =
      persist_accounts-marks s.ds log.updated_accounts accounts start u forward first
        (λ b i m. omega (arith, up b, marked b i (sym (ap (λ g. g b i) gc) ∙ m))) in
    (
      λ a i m.
          omega (arith, top a, marks a i (sym (ap (λ g. g a i) (ap (λ t. t.gc) is ∙ gc')) ∙ m)),
      λ a i m. omega (arith, top a, up a, listed a i m),
    )

collect_one-version :
    (ds : Store) (addr version a : ℕ)
    → committed_version (collect_one ds addr version) a ≡ committed_version ds a
unfolding collect_one committed_version
collect_one-version ds addr version a = refl

collect_one-marks :
    (ds : Store) (addr version b i : ℕ)
    → (collect_one ds addr version).gc b i ≡ true
    → ds.gc b i ≡ true
unfolding collect_one
collect_one-marks ds addr version b i marked = elim (Bool-cases (b == addr)) [
  | inl e ↦ subst (λ a. ds.gc a i ≡ true) (sym ((==_iff b addr).0 e)) (ground arith)
  | inr e ↦ ground arith
]

collect_next-IsSafe :
    (ds : Store) (pending : List (ℕ × ℕ))
    → IsSafe (record { ds = ds; pending = pending })
    → IsSafe (collect_next ds pending)
unfolding collect_next
collect_next-IsSafe ds [] safe = safe
collect_next-IsSafe ds ((addr, version) ∷ rest) (marked, listed) = (
  λ a i m.
      subst (λ n. i < n) (sym (collect_one-version ds addr version a))
        (marked a i (collect_one-marks ds addr version a i m)),
  λ a i m.
      subst (λ n. i < n) (sym (collect_one-version ds addr version a)) (listed a i (Memᴰ.tail m)),
)

Step-IsSafe : (s t : Routine) → Step s t → IsSafe s → IsSafe t
Step-IsSafe _ _ (Step.query s found all) (marked, listed) =
    (marked, λ a i m. marked a i (all a i m))
Step-IsSafe _ _ (Step.collected s) safe = collect_next-IsSafe s.ds s.pending safe
Step-IsSafe _ _ (Step.left s entry rest is) (marked, listed) =
    (marked, λ a i m. listed a i (subst (λ l. Memᴰ (a, i) l) (sym is) (Memᴰ.tail m)))
Step-IsSafe _ _ (Step.persisted s w ds log accounts codes forward visited vals vers gc r) safe =
    persisted-IsSafe s w ds log accounts codes forward visited vals vers gc r safe

-- Steps in a row, in any order.
pub data Run : Routine → Routine → Type 0 where
  stop : (s : Routine) → Run s s
  next : (s t u : Routine) → Step s t → Run t u → Run s u

pub Run-IsSafe : (s t : Routine) → Run s t → IsSafe s → IsSafe t
Run-IsSafe _ _ (Run.stop s) safe = safe
Run-IsSafe _ _ (Run.next s m t step rest) safe = Run-IsSafe m t rest (Step-IsSafe s m step safe)

collect_one-kept_here :
    (ds : Store) (addr old version key : ℕ)
    → committed_version ds addr ≤ version
    → old < committed_version ds addr
    → get_storage_by_version (collect_one ds addr old) addr version key
      ≡ get_storage_by_version ds addr version key
unfolding collect_one get_storage_by_version
collect_one-kept_here ds addr old version key current below = ground arith

collect_one-kept :
    (ds : Store) (addr old a version key : ℕ)
    → old < committed_version ds addr
    → committed_version ds a ≤ version
    → get_storage_by_version (collect_one ds addr old) a version key
      ≡ get_storage_by_version ds a version key
unfolding collect_one get_storage_by_version
collect_one-kept ds addr old a version key below current = elim (Bool-cases (a == addr)) [
  | inl e ↦
      let same = (==_iff a addr).0 e in
      subst
        (λ b.
          get_storage_by_version (collect_one ds addr old) b version key
          ≡ get_storage_by_version ds b version key)
        (sym same)
        (collect_one-kept_here ds addr old version key
          (subst (λ b. committed_version ds b ≤ version) same current) below)
  | inr e ↦ ground arith
]

collect_next-kept :
    (ds : Store) (pending : List (ℕ × ℕ)) (a version key : ℕ)
    → ((b i : ℕ) → Memᴰ (b, i) pending → i < committed_version ds b)
    → committed_version ds a ≤ version
    → get_storage_by_version (collect_next ds pending).ds a version key
      ≡ get_storage_by_version ds a version key
unfolding collect_next
collect_next-kept ds [] a version key listed current = refl
collect_next-kept ds ((addr, old) ∷ rest) a version key listed current =
    collect_one-kept ds addr old a version key (listed addr old (Memᴰ.head refl)) current

-- From a datastore whose marks are on versions that are gone, and whatever rounds of the routine and
-- batches of layer logs have run since, in any order and with the batches between the entries of a
-- round, clearing the next entry of the round leaves what is read of a slot of an account, under the
-- version that the account stands at or a later one. The layer logs do not take a version down, and
-- their accounts are all visited.
pub collect_next-get_storage_by_version :
    (s t : Routine) (a version key : ℕ)
    → IsSafe s
    → Run s t
    → committed_version t.ds a ≤ version
    → get_storage_by_version (collect_next t.ds t.pending).ds a version key
      ≡ get_storage_by_version t.ds a version key
collect_next-get_storage_by_version s t a version key safe run current =
    collect_next-kept t.ds t.pending a version key (Run-IsSafe s t run safe).1 current
