-- ===== src/Worldstate/Committed/ReadBack.antt =====
-- What the next transaction reads of the accounts that a finished one handed over.
use mathlib.Core.List.{Memᴰ}
use mathlib.Core.List.Memᴰ
use teler.Base.{ℕ, ◌≡◌, none, some, List, Map}
use teler.Types.{Library}
use teler.Worldstate.Account.Object.{Account}
use teler.Worldstate.Account.Finalized.{Finalized, get_finalized}
use teler.Worldstate.Committed.{Committed, apply_one}

-- The entries of an address, apart from the preimages of code.
abbrev Holds : Committed → ℕ → Finalized → Map ℕ → Type 0
Holds s addr f slots =
    (s.committed_accounts addr ≡ some f.final_state)
    × (s.overriden addr ≡ f.overriden)
    × ((key : ℕ) → s.committed_storage addr f.final_state.version key ≡ slots key)

abbrev Untouched : Committed → Committed → ℕ → Type 0
Untouched s t addr =
    (t.committed_accounts addr ≡ s.committed_accounts addr)
    × (t.overriden addr ≡ s.overriden addr)
    × ((version key : ℕ)
        → t.committed_storage addr version key ≡ s.committed_storage addr version key)

module _ (lib : Library) (dirty : Map Account) (addr : ℕ) (a : Account)
    (there : dirty addr ≡ some a) where
  final : Finalized
  final = get_finalized lib a

  round : Committed → ℕ → Committed
  round s other = elim (dirty other) [
    | none ↦ s
    | some acct ↦ apply_one s other (get_finalized lib acct)
  ]
