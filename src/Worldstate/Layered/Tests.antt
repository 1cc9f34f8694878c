-- ===== src/Worldstate/Layered/Tests.antt =====
-- A read through a chain of two layers, with a cache that keeps everything.
use teler.Base.{ℕ, [], ◌∷◌, Map, empty, put, true, inl, inr, Bool-cases, ◌==◌, arith}
use teler.Worldstate.Layered.{answer}
use teler.Worldstate.Layered.Reads.{Lru, IsLru, Level, IsSoundChain, IsRead, read, read-IsRead}

abbrev every_entry : Lru ℕ ℕ
every_entry = record {
  Cache = Map ℕ;
  get = λ c k. c k;
  use_of = λ c k. c;
  add = λ c k v. put c k v;
}

every_entry-IsLru : IsLru every_entry
every_entry-IsLru = record {
  touched = λ c k j v e. e;
  added = λ c k j v w e. elim (Bool-cases (j == k)) [
    | inl same ↦ inl (ground arith, ground arith)
    | inr other ↦ inr (ground arith)
  ];
}

-- The younger layer writes key 1, the older one key 2, and the younger has cached key 2.
abbrev older : Level every_entry
older = record { own = put empty 2 20; cached = empty }

abbrev younger : Level every_entry
younger = record { own = put empty 1 10; cached = put empty 2 20 }

sample-IsSoundChain : IsSoundChain every_entry (λ k. k) (younger ∷ older ∷ [])
unfolding answer
sample-IsSoundChain =
    IsSoundChain.layer younger (older ∷ []) (λ k v e. ground arith)
      (IsSoundChain.layer older [] (λ k v e. absurd (ground arith)) IsSoundChain.bottom)

read-IsRead_example :
    IsRead every_entry every_entry-IsLru
      (λ k. k)
      (younger ∷ older ∷ [])
      2
      (read every_entry true (λ k. k) (younger ∷ older ∷ []) 2)
read-IsRead_example =
    read-IsRead every_entry every_entry-IsLru (λ k. k) true (younger ∷ older ∷ []) 2
      sample-IsSoundChain
