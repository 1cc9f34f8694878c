-- ===== src/Blockchain/Head/Pruned.antt =====
-- What tryPrune leaves: everything from the new tail on.
use teler.Blockchain.Head.{prune_to}
use teler.Base.{add64, ◌-◌, true, false}
use teler.Base.{
  ℕ, zero, suc, ◌+◌, ◌^◌, ◌≤◌, ◌<◌, ◌≡◌, ◌≢◌, refl, sym, ap, ◌∙◌, subst, Bool, true, false, Option,
  none, some, List, [], ◌∷◌, ◌==◌, ==_iff, leb, sub64, Bool-cases, Option-cases, inl, inr, arith,
}
use teler.Blockchain.Chain.{Block, Chain}
use teler.Blockchain.Head.{committed, prune_forks, prune_height, prune_heights, try_prune}

-- The stored blocks of a list of forks have this number.
abbrev pub AllAt : Chain → ℕ → List ℕ → Type 0
AllAt c k [] = Unit {0}
AllAt c k (x ∷ xs) = ((b : Block) → c.blocks x ≡ some b → b.number ≡ k) × AllAt c k xs

-- The forks of a height are blocks of this height.
pub record IsIndexed (c : Chain) : Type 0 where
  pub indexed : (k : ℕ) (forks : List ℕ) → c.forks k ≡ some forks → AllAt c k forks

abbrev NotIn : ℕ → List ℕ → Type 0
NotIn h [] = Unit {0}
NotIn h (x ∷ xs) = (x ≢ h) × NotIn h xs

AllAt-NotIn :
    (c : Chain) (k : ℕ) (forks : List ℕ) (h : ℕ) (b : Block)
    → c.blocks h ≡ some b
    → b.number ≢ k
    → AllAt c k forks
    → NotIn h forks
AllAt-NotIn c k [] h b e ne all = tt
AllAt-NotIn c k (x ∷ xs) h b e ne (here, all) =
    (λ same. ne (here b (ap c.blocks same ∙ e)), AllAt-NotIn c k xs h b e ne all)

-- Two chains with the same block at `h`, and the same tail and forks.
abbrev Keeps : ℕ → Chain → Chain → Type 0
Keeps h w v = (v.blocks h ≡ w.blocks h) × (v.forks ≡ w.forks) × (v.tail ≡ w.tail)

prune_forks-Keeps :
    (c : Chain) (h : ℕ) (forks : List ℕ) (w v : Chain)
    → NotIn h forks
    → prune_forks c w forks ≡ some v
    → Keeps h w v
unfolding prune_forks
prune_forks-Keeps c h [] w v out r =
    let same : w ≡ v = cc in subst (Keeps h w) same (refl, refl, refl)
prune_forks-Keeps c h (x ∷ xs) w v (ne, out) r = elim (Option-cases (c.blocks x)) [
  | inl gone ↦ cc (rw (gone, prune_forks) at r)
  | inr (blk, e) ↦
      let (blocks, forks, tail) = prune_forks-Keeps c h xs _ v out (rw (e, prune_forks) at r) in
      (blocks ∙ ground arith, forks, tail)
]

-- `h` is not among the forks of the heights below `k`.
abbrev Out : ℕ → ℕ → Chain → Type 0
Out h k c = (j : ℕ) (forks : List ℕ) → j < k → c.forks j ≡ some forks → NotIn h forks

-- After the turn at height `i`: the block at `h`, and each entry of forks that is still there.
abbrev Turned : ℕ → ℕ → Chain → Chain → Type 0
Turned h i c v =
    (v.blocks h ≡ c.blocks h)
    × (v.tail ≡ c.tail)
    × ((j : ℕ) → j ≢ i → v.forks j ≡ c.forks j)
    × ((forks : List ℕ) → v.forks i ≡ some forks → c.forks i ≡ some forks)

Turned-refl : (h i : ℕ) (c : Chain) → Turned h i c c
Turned-refl h i c = (refl, refl, λ j ne. refl, λ forks e. e)

committed-Turned :
    (c : Chain) (h i : ℕ) (o : Option Chain) (commits : Bool)
    → ((v : Chain) → o ≡ some v → Keeps h c v)
    → Turned h i c (committed c o i commits)
committed-Turned c h i none commits k = Turned-refl h i c
committed-Turned c h i (some v) false k = Turned-refl h i c
committed-Turned c h i (some v) true k =
    let (blocks, forks, tail) = k v refl in
    (blocks, tail, λ j ne. ground arith, λ fs e. ground arith)

prune_height-Turned :
    (commits : ℕ → Bool) (c : Chain) (h i : ℕ)
    → ((forks : List ℕ) → c.forks i ≡ some forks → NotIn h forks)
    → Turned h i c (prune_height commits c i)
unfolding prune_height
prune_height-Turned commits c h i out = elim (Option-cases (c.forks i)) [
  | inl e ↦
      let is : prune_height commits c i ≡ c = rw (e, prune_height) refl in
      subst (Turned h i c) (sym is) (Turned-refl h i c)
  | inr (forks, e) ↦
      let is : prune_height commits c i ≡ committed c (prune_forks c c forks) i (commits i) =
        rw (e, prune_height) refl in
      subst (Turned h i c) (sym is) (
        committed-Turned c h i (prune_forks c c forks) (commits i)
          (λ v r. prune_forks-Keeps c h forks c v (out forks e) r))
]

prune_heights-Keeps :
    (commits : ℕ → Bool) (h n : ℕ) (c : Chain) (i : ℕ)
    → Out h (i + n) c
    → ((prune_heights commits c i n).blocks h ≡ c.blocks h)
      × ((j : ℕ) → i + n ≤ j → (prune_heights commits c i n).forks j ≡ c.forks j)
unfolding prune_heights
prune_heights-Keeps commits h zero c i out = (refl, λ j le. refl)
prune_heights-Keeps commits h (suc n) c i out =
    let (blocks, tail, others, here) =
      prune_height-Turned commits c h i (λ fs e. out i fs (omega arith) e) in
    let (rest, above) =
      prune_heights-Keeps commits h n (prune_height commits c i) (i + 1) (λ j fs lt e.
        elim (Bool-cases (j == i)) [
          | inl t ↦ let same = (==_iff j i).0 t in out i fs (omega arith) (here fs (rw same at e))
          | inr t ↦ out j fs (omega arith) (sym (others j (ground arith)) ∙ e)
        ]) in
    (rest ∙ blocks, λ j le. above j (omega arith) ∙ others j (λ same. absurd (omega arith)))

-- The new tail does not wrap, and is not above the height.
pub new_tail-bounds :
    (c : Chain) (height : ℕ)
    → c.tail ≤ height
    → height < 2 ^ 64
    → c.pruning_frequency ≤ c.max_block_to_retain
    → leb (sub64 height c.tail) c.max_block_to_retain ≡ false
    → (c.tail ≤ add64 c.tail c.pruning_frequency) × (add64 c.tail c.pruning_frequency ≤ height)
new_tail-bounds c height low fits freq e =
    let far : c.tail + c.pruning_frequency ≤ height = ground arith in
    (ground (arith, far), ground (arith, far))

-- Where the forks of each height are blocks of this height, the tail is not above the height of the
-- head, which fits in 64 bits, and the pruning frequency is at most the number of blocks to retain,
-- which the configuration does not ensure: a tryPrune whose Put of the tail goes through leaves the
-- tail at or below the head, and a stored block from the new tail on stays stored, with the forks at
-- its height, whichever of the commits go through.
pub try_prune-keeps :
    (commits : ℕ → Bool) (c : Chain) (height h : ℕ) (b : Block)
    → IsIndexed c
    → c.tail ≤ height
    → height < 2 ^ 64
    → c.pruning_frequency ≤ c.max_block_to_retain
    → c.blocks h ≡ some b
    → (try_prune commits true c height).tail ≤ b.number
    → ((try_prune commits true c height).tail ≤ height)
      × ((try_prune commits true c height).blocks h ≡ some b)
      × ((try_prune commits true c height).forks b.number ≡ c.forks b.number)
unfolding try_prune prune_to
try_prune-keeps commits c height h b index low fits freq e above =
    elim (Bool-cases (leb (sub64 height c.tail) c.max_block_to_retain)) [
      | inl t ↦ rw t (low, e, refl)
      | inr t ↦
          let n = add64 c.tail c.pruning_frequency in
          let (up, down) = new_tail-bounds c height low fits freq t in
          let le : n ≤ b.number = rw t at above in
          let (blocks, forks) = prune_heights-Keeps commits h (n - c.tail) c c.tail (λ j fs lt f.
            AllAt-NotIn c j fs h b e (λ same. absurd (omega (arith, up, lt, le, same)))
              (index.indexed j fs f)) in
          rw t (down, blocks ∙ e, forks b.number (omega (arith, up, le)))
    ]
