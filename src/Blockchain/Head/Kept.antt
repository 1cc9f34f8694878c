-- ===== src/Blockchain/Head/Kept.antt =====
-- A head that moves keeps how blocks are stored, and the forks of each height.
use teler.Base.{ℕ, ◌≡◌, ◌≢◌, some, List, [], ◌∷◌, Map}
use teler.Blockchain.Chain.{Chain}

-- Written over the forks of the chain: no empty entry, and an entry wherever the chain has one.
record Full (c : Chain) (w : Map (List ℕ)) : Type 0 where
  not_empty : (k : ℕ) → w k ≢ some []
  entry :
      (k x : ℕ) (xs : List ℕ)
      → c.forks k ≡ some (x ∷ xs)
      → (y : ℕ) × (ys : List ℕ) × (w k ≡ some (y ∷ ys))
