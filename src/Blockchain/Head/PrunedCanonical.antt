-- ===== src/Blockchain/Head/PrunedCanonical.antt =====
-- Pruning leaves the canonical chain from the new tail on.
use teler.Base.{add64, ◌-◌}
use teler.Blockchain.Head.{prune_to}
use teler.Blockchain.Head.Pruned.{new_tail-bounds}
use teler.Base.{
  ℕ, zero, suc, ◌+◌, ◌^◌, ◌≤◌, ◌<◌, ◌≡◌, ◌≢◌, refl, sym, ap, ◌∙◌, Bool, true, false, Option, none,
  some, List, [], ◌∷◌, leb, sub64, Bool-cases, Option-cases, inl, inr, arith,
}
use teler.Blockchain.Chain.{Block, Chain}
use teler.Blockchain.Head.{committed, prune_forks, prune_height, prune_heights, try_prune}
use teler.Blockchain.Head.Canonical.{hash_of, first, IsStored, IsCanonical}
use teler.Blockchain.Head.Pruned.{IsIndexed, try_prune-keeps}

prune_forks-forks :
    (c : Chain) (forks : List ℕ) (w v : Chain) → prune_forks c w forks ≡ some v → v.forks ≡ w.forks
unfolding prune_forks
prune_forks-forks c [] w v r = let same : w ≡ v = cc in ap (λ m. m.forks) (sym same)
prune_forks-forks c (x ∷ xs) w v r = elim (Option-cases (c.blocks x)) [
  | inl gone ↦ cc (rw (gone, prune_forks) at r)
  | inr (blk, e) ↦ prune_forks-forks c xs _ v (rw (e, prune_forks) at r)
]

committed-forks :
    (c : Chain) (i j : ℕ) (o : Option Chain) (commits : Bool)
    → j ≢ i
    → ((v : Chain) → o ≡ some v → v.forks ≡ c.forks)
    → (committed c o i commits).forks j ≡ c.forks j
committed-forks c i j none commits ne k = refl
committed-forks c i j (some v) false ne k = refl
committed-forks c i j (some v) true ne k = let forks = k v refl in ground arith

prune_height-forks :
    (commits : ℕ → Bool) (c : Chain) (i j : ℕ)
    → j ≢ i
    → (prune_height commits c i).forks j ≡ c.forks j
unfolding prune_height
prune_height-forks commits c i j ne = elim (Option-cases (c.forks i)) [
  | inl e ↦
      let is : prune_height commits c i ≡ c = rw (e, prune_height) refl in ap (λ m. m.forks j) is
  | inr (forks, e) ↦
      let is : prune_height commits c i ≡ committed c (prune_forks c c forks) i (commits i) =
        rw (e, prune_height) refl in
      ap (λ m. m.forks j) is
      ∙ committed-forks c i j (prune_forks c c forks) (commits i) ne (prune_forks-forks c forks c)
]

prune_heights-forks :
    (commits : ℕ → Bool) (n : ℕ) (c : Chain) (i j : ℕ)
    → i + n ≤ j
    → (prune_heights commits c i n).forks j ≡ c.forks j
unfolding prune_heights
prune_heights-forks commits zero c i j le = refl
prune_heights-forks commits (suc n) c i j le =
    prune_heights-forks commits n (prune_height commits c i) (i + 1) j (omega arith)
    ∙ prune_height-forks commits c i j (λ same. absurd (omega arith))

module _ (commits : ℕ → Bool) (c : Chain) (height : ℕ) (low : c.tail ≤ height)
    (fits : height < 2 ^ 64) (freq : c.pruning_frequency ≤ c.max_block_to_retain) where
  try_prune-tail :
      (c.tail ≤ (try_prune commits true c height).tail)
      × ((try_prune commits true c height).tail ≤ height)
  unfolding try_prune prune_to
  try_prune-tail = elim (Bool-cases (leb (sub64 height c.tail) c.max_block_to_retain)) [
    | inl t ↦ rw t (omega arith, low)
    | inr t ↦ rw t (new_tail-bounds c height low fits freq t)
  ]

  try_prune-forks :
      (k : ℕ)
      → (try_prune commits true c height).tail ≤ k
      → (try_prune commits true c height).forks k ≡ c.forks k
  unfolding try_prune prune_to
  try_prune-forks k le = elim (Bool-cases (leb (sub64 height c.tail) c.max_block_to_retain)) [
    | inl t ↦ rw t refl
    | inr t ↦
        let n = add64 c.tail c.pruning_frequency in
        let (up, down) = new_tail-bounds c height low fits freq t in
        let reached : n ≤ k = rw t at le in
        rw t (prune_heights-forks commits (n - c.tail) c c.tail k (omega (arith, up, reached)))
  ]

-- Where blocks are stored under their hashes, the forks of each height are blocks of this height,
-- and the pruning frequency is at most the number of blocks to retain, which the configuration does
-- not ensure: after a tryPrune at the height of a block that is stored, at the tail or above it, and
-- the top of the canonical chain, and whose Put of the tail goes through, it is still the top of the
-- canonical chain, now down to the new tail, whichever of the commits go through.
pub try_prune-IsCanonical :
    (commits : ℕ → Bool) (c : Chain) (blk : Block)
    → IsStored c
    → IsIndexed c
    → c.tail ≤ blk.number
    → c.pruning_frequency ≤ c.max_block_to_retain
    → c.blocks blk.hash ≡ some blk
    → IsCanonical c c.forks blk
    → IsCanonical
        (try_prune commits true c blk.number)
        (try_prune commits true c blk.number).forks
        blk
try_prune-IsCanonical commits c blk stored index low freq e canonical =
    let p = try_prune commits true c blk.number in
    let fits = stored.bounded blk.hash blk e in
    let (up, down) = try_prune-tail commits c blk.number low fits freq in
    let same : (k : ℕ) → p.tail ≤ k → first p.forks k ≡ first c.forks k =
      λ k le. ap hash_of (try_prune-forks commits c blk.number low fits freq k le) in
    record {
      at_top = same blk.number down ∙ canonical.at_top;
      linked = λ i t lt.
          let (b, b_e, n, parent) = canonical.linked i (omega arith) lt in
          let (tail, kept, forks) =
            try_prune-keeps commits c blk.number (first c.forks (suc i)) b index low fits freq b_e
              (omega arith) in
          (b, ap p.blocks (same (suc i) (omega arith)) ∙ kept, n, same i t ∙ parent);
      above = λ i lt. same i (omega arith) ∙ canonical.above i lt;
    }
