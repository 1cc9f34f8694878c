-- ===== src/Sync/Backward.antt =====
-- The blocks that BackwardSync collects.
use teler.Base.{
  ℕ, zero, suc, ◌≤◌, ◌≡◌, refl, sym, ap, ◌∙◌, subst, true, false, Option, none, some, List, [], ◌∷◌,
  length, Outcome, fail, done, and_then-eq-done, and_then-done, Bool-cases, inl, inr, arith,
  if-true, if-false,
}
use teler.Blockchain.Chain.{Block, Chain, has_block}
use teler.Backend.{Error, Execution, Commits, Backend, import_blocks}
use teler.Sync.{Failure, fetched, collect, imported, backward_sync}

-- The way from a hash back to a block that the node has: the blocks that the source gives, each for the
-- parent of the one before, and none of them there.
pub data IsWalk (source : ℕ → Option Block) (bc : Chain) : ℕ → List Block → Type 0 where
  there : (parent : ℕ) → has_block bc parent ≡ true → IsWalk source bc parent []
  back :
      (parent : ℕ) (blk : Block) (older : List Block)
      → has_block bc parent ≡ false
      → source parent ≡ some blk
      → IsWalk source bc blk.parent_hash older
      → IsWalk source bc parent (blk ∷ older)

-- The walk turned round, before the blocks that are there.
abbrev pub turned : List Block → List Block → List Block
turned [] blocks = blocks
turned (blk ∷ older) blocks = turned older (blk ∷ blocks)

-- Each block is the parent of the next one.
pub data IsLinked : List Block → Type 0 where
  one : (blk : Block) → IsLinked (blk ∷ [])
  more :
      (parent child : Block) (rest : List Block)
      → child.parent_hash ≡ parent.hash
      → IsLinked (child ∷ rest)
      → IsLinked (parent ∷ child ∷ rest)

module _ {A : Type 0} (source : ℕ → Option Block) (bc : Chain) where
  -- A walk that is short enough is found.
  collect-walk :
      (attempts parent : ℕ) (blocks walk : List Block)
      → IsWalk source bc parent walk
      → length walk ≤ attempts
      → collect {A = A} source bc attempts parent blocks ≡ done (turned walk blocks)
  unfolding collect
  collect-walk zero parent blocks _ (IsWalk.there _ is) short = rw (is) refl
  collect-walk zero parent blocks _ (IsWalk.back _ blk older new is walk) short =
      absurd (omega (arith, short))
  collect-walk (suc attempts) parent blocks _ (IsWalk.there _ is) short = rw (is) refl
  collect-walk (suc attempts) parent blocks _ (IsWalk.back _ blk older new is walk) short =
      rw (new) (
        and_then-done (λ b. collect source bc attempts b.parent_hash (b ∷ blocks)) (ap fetched is)
        ∙ collect-walk attempts blk.parent_hash (blk ∷ blocks) older walk (omega (arith, short)))

  fetched-done : (o : Option Block) (blk : Block) → fetched {A = A} o ≡ done blk → o ≡ some blk
  fetched-done none blk e = absurd (ground arith)
  fetched-done (some b) blk e = ap (λ o. elim o [ fail f ↦ some b | done u ↦ some u ]) e

  stopped :
      (blocks out : List Block)
      → ◌≡◌ {A = Outcome (Failure A) (List Block)} (done blocks) (done out)
      → out ≡ blocks
  stopped blocks out e = ap (λ o. elim o [ fail f ↦ out | done u ↦ u ]) (sym e)

  -- What is found is a walk.
  collect-IsWalk :
      (attempts parent : ℕ) (blocks out : List Block)
      → collect {A = A} source bc attempts parent blocks ≡ done out
      → (walk : List Block) × IsWalk source bc parent walk
        × (length walk ≤ attempts)
        × (out ≡ turned walk blocks)
  unfolding collect
  collect-IsWalk zero parent blocks out r = elim (Bool-cases (has_block bc parent)) [
    | inl is ↦ ([], IsWalk.there parent is, omega arith, stopped blocks out (if-true _ _ _ is r))
    | inr new ↦ cc (if-false _ _ _ new r)
  ]
  collect-IsWalk (suc attempts) parent blocks out r = elim (Bool-cases (has_block bc parent)) [
    | inl is ↦ ([], IsWalk.there parent is, omega arith, stopped blocks out (if-true _ _ _ is r))
    | inr new ↦
        let (blk, first, later) =
          and_then-eq-done (fetched (source parent))
            (λ b. collect source bc attempts b.parent_hash (b ∷ blocks)) (if-false _ _ _ new r) in
        let (walk, is, short, whole) =
          collect-IsWalk attempts blk.parent_hash (blk ∷ blocks) out later in
        (
          blk ∷ walk,
          IsWalk.back parent blk walk new (fetched-done (source parent) blk first) is,
          omega (arith, short),
          whole,
        )
  ]

-- A source gives for a hash the block with that hash: then the walk turned round is linked.
turned-IsLinked :
    (source : ℕ → Option Block) (bc : Chain) (walk rest : List Block) (child : Block)
    → ((h : ℕ) (blk : Block) → source h ≡ some blk → blk.hash ≡ h)
    → IsWalk source bc child.parent_hash walk
    → IsLinked (child ∷ rest)
    → IsLinked (turned walk (child ∷ rest))
turned-IsLinked source bc [] rest child honest walk linked = linked
turned-IsLinked source bc (_ ∷ _) rest child honest (IsWalk.back _ blk older new is walk) linked =
    turned-IsLinked source bc older (child ∷ rest) blk honest walk
      (IsLinked.more blk child rest (sym (honest child.parent_hash blk is)) linked)

imported-done :
    {A : Type 0} (o : Outcome (Error × Backend A) (Backend A)) (b' : Backend A)
    → imported o ≡ done b'
    → o ≡ done b'
imported-done (fail why) b' e = absurd (ground arith)
imported-done (done b) b' e = ap (λ o. elim o [ fail f ↦ done b | done u ↦ done u ]) e

-- BackwardSync comes to its end where the way from the target back to a block of the node has as many
-- blocks as may be queried at most, and the source gives them: it queries them, once each, and what it
-- returns is what the import of them and of the target returns, the oldest first, each the parent of
-- the next one where the source gives for a hash the block with that hash.
pub backward_sync-import_blocks :
    {A M : Type 0} (exec : Execution A M) (commits : Commits) (source : ℕ → Option Block)
    (b : Backend A) (target : Block) (max_blks_to_query : ℕ) (walk : List Block)
    → ((h : ℕ) (blk : Block) → source h ≡ some blk → blk.hash ≡ h)
    → IsWalk source b.bc target.parent_hash walk
    → length walk ≤ max_blks_to_query
    → (backward_sync exec commits source b target max_blks_to_query
        ≡ imported (import_blocks exec commits b (turned walk (target ∷ [])) none))
      × IsLinked (turned walk (target ∷ []))
unfolding backward_sync
backward_sync-import_blocks exec commits source b target max_blks_to_query walk honest at short = (
  and_then-done (λ blocks. imported (import_blocks exec commits b blocks none))
      (collect-walk source b.bc max_blks_to_query target.parent_hash (target ∷ []) walk at short),
  turned-IsLinked source b.bc walk [] target honest at (IsLinked.one target),
)

-- BackwardSync that returns no error has found such a way, within the number of blocks that may be
-- queried, and the import of the blocks went through.
pub backward_sync-IsWalk :
    {A M : Type 0} (exec : Execution A M) (commits : Commits) (source : ℕ → Option Block)
    (b b' : Backend A) (target : Block) (max_blks_to_query : ℕ)
    → backward_sync exec commits source b target max_blks_to_query ≡ done b'
    → (walk : List Block) × IsWalk source b.bc target.parent_hash walk
      × (length walk ≤ max_blks_to_query)
      × (import_blocks exec commits b (turned walk (target ∷ [])) none ≡ done b')
unfolding backward_sync
backward_sync-IsWalk exec commits source b b' target max_blks_to_query r =
    let (blocks, found, went) =
      and_then-eq-done (collect source b.bc max_blks_to_query target.parent_hash (target ∷ []))
        (λ blocks. imported (import_blocks exec commits b blocks none)) r in
    let (walk, is, short, whole) =
      collect-IsWalk source b.bc max_blks_to_query target.parent_hash (target ∷ []) blocks found in
    (
      walk,
      is,
      short,
      imported-done (import_blocks exec commits b (turned walk (target ∷ [])) none) b'
          (subst (λ l. imported (import_blocks exec commits b l none) ≡ done b') whole went),
    )
