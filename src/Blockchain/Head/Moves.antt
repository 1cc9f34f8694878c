-- ===== src/Blockchain/Head/Moves.antt =====
-- A head that moves: what SetHead commits, from the invariant of the canonical chain.
use teler.Base.{
  ℕ, zero, suc, ◌+◌, ◌-◌, ◌≤◌, ◌<◌, ◌≡◌, refl, ap, ◌∙◌, subst, Bool, some, List, Map, ◌==◌, ==_iff,
  ltb, leb, if◌then◌else◌, sub64, Bool-cases, inl, inr, arith,
}
use teler.Blockchain.Chain.{Block, ok, >>=-eq-ok, Chain, found, get_block_by_hash, commit-ok}
use teler.Blockchain.Head.{rewrite_first, clear_canonical, set_ancestors, new_forks, move_head}
use teler.Blockchain.Head.Canonical.{
  hash_of, first, IsStored, IsCanonical, Linked, Linked-suc, get_block-ok, rewrite_first-ok,
  set_ancestors-ok,
}

-- Heights from k on, n of them, lose their canonical block.
clear_canonical-ok :
    (n : ℕ) (c : Chain) (w w' : Map (List ℕ)) (k : ℕ)
    → clear_canonical c w k n ≡ ok w'
    → ((j : ℕ) → j < k → w' j ≡ w j)
      × ((j : ℕ) → k ≤ j → j < k + n → first w' j ≡ 0)
      × ((j : ℕ) → k + n ≤ j → w' j ≡ w j)
unfolding clear_canonical
clear_canonical-ok zero c w w' k r =
    let w_is : w ≡ w' = cc in
    subst
      (λ m.
        ((j : ℕ) → j < k → m j ≡ w j)
        × ((j : ℕ) → k ≤ j → j < k + 0 → first m j ≡ 0)
        × ((j : ℕ) → k + 0 ≤ j → m j ≡ w j))
      w_is (λ j lt. refl, λ j le lt. absurd (omega arith), λ j le. refl)
clear_canonical-ok (suc n) c w w' k r =
    let (w1, rewritten, r1) = >>=-eq-ok (rewrite_first c w k 0) _ r in
    let (at_k, elsewhere) = rewrite_first-ok c w w1 k 0 rewritten in
    let (below, at_zero, above) = clear_canonical-ok n c w1 w' (k + 1) r1 in
    (
      λ j lt. below j (omega arith) ∙ elsewhere j (omega arith),
      λ j le lt. elim (Bool-cases (j == k)) [
        | inl t ↦ rw ((==_iff j k).0 t) (ap hash_of (below k (omega arith)) ∙ at_k)
        | inr t ↦ at_zero j (ground arith) (omega arith)
      ],
      λ j le. above j (omega arith) ∙ elsewhere j (omega arith),
    )

module _ (c : Chain) (stored : IsStored c) (current : Block)
    (canonical : IsCanonical c c.forks current) where
  cleared-ok :
      (blk : Block) (w : Map (List ℕ))
      → (if ltb blk.number current.number
          then clear_canonical c c.forks (blk.number + 1) (current.number - blk.number)
          else ok c.forks)
        ≡ ok w
      → ((j : ℕ) → j ≤ blk.number → w j ≡ c.forks j) × ((j : ℕ) → blk.number < j → first w j ≡ 0)
  cleared-ok blk w r = elim (Bool-cases (ltb blk.number current.number)) [
    | inl t ↦
        let (below, at_zero, above) =
          clear_canonical-ok (current.number - blk.number) c c.forks w (blk.number + 1)
            (rw t at r) in
        (
          λ j le. below j (omega arith),
          λ j lt. elim (Bool-cases (leb j current.number)) [
            | inl le ↦ at_zero j (omega arith) (ground arith)
            | inr gt ↦ ap hash_of (above j (ground arith)) ∙ canonical.above j (ground arith)
          ],
        )
    | inr t ↦
        let w_is : c.forks ≡ w = cc (rw t at r) in
        subst
          (λ m.
            ((j : ℕ) → j ≤ blk.number → m j ≡ c.forks j)
            × ((j : ℕ) → blk.number < j → first m j ≡ 0))
          w_is (λ j le. refl, λ j lt. canonical.above j (ground arith))
  ]

  new_forks-IsCanonical :
      (blk : Block) (w : Map (List ℕ)) (hash : ℕ)
      → c.blocks hash ≡ some blk
      → new_forks c current blk ≡ ok w
      → IsCanonical c w blk
  unfolding new_forks
  new_forks-IsCanonical blk w hash e r =
      let (w1, cleared, r1) =
        >>=-eq-ok
          (if ltb blk.number current.number
            then clear_canonical c c.forks (blk.number + 1) (current.number - blk.number)
            else ok c.forks)
          _ r in
      let (w2, topped, r2) = >>=-eq-ok (rewrite_first c w1 blk.number blk.hash) _ r1 in
      let (parent, there, r3) = >>=-eq-ok (get_block_by_hash c blk.parent_hash) _ r2 in
      let (below, above) = cleared-ok blk w1 cleared in
      let (at_top, elsewhere) = rewrite_first-ok c w1 w2 blk.number blk.hash topped in
      let parent_e = get_block-ok c blk.parent_hash parent there in
      let next : blk.number ≡ suc parent.number = stored.numbered hash blk parent e parent_e in
      let room = stored.bounded hash blk e in
      let down : sub64 blk.number 1 ≡ parent.number = omega arith in
      elim (Bool-cases (ltb (sub64 blk.number 1) c.tail)) [
        | inl low ↦ cc (rw low at r3)
        | inr high ↦
            let r4 : set_ancestors (blk.number + 1) c w2 parent.number blk.parent_hash parent
                ≡ ok w =
              rw down at (rw high at r3) in
            let (same, at_parent, linked) =
              set_ancestors-ok c stored current canonical (blk.number + 1) w2 w parent.number
                blk.parent_hash parent parent_e refl
                (λ j le. elsewhere j (omega arith) ∙ below j (omega arith)) r4 in
            let top_is : first w blk.number ≡ blk.hash =
              ap hash_of (same blk.number (omega arith)) ∙ at_top in
            let found_top : c.blocks (first w (suc parent.number)) ≡ some blk =
              rw (← next) (ap (λ h. c.blocks h) (top_is ∙ stored.hashed hash blk e) ∙ e) in
            let all : Linked c w (suc parent.number) =
              Linked-suc c w parent.number blk linked found_top next at_parent in
            record {
              at_top = top_is;
              linked = λ i t lt. all i t (omega arith);
              above = λ i lt.
                  ap hash_of (same i (omega arith) ∙ elsewhere i (omega arith)) ∙ above i lt;
            }
      ]

  -- Where blocks are stored under their hashes, one above their parents, and the chain of the
  -- head, a stored block, is canonical: when the transaction of SetHead commits, and before tryPrune
  -- runs, the hash it was given is that of a stored block, which is the head now; the canonical
  -- blocks are this block and its ancestors, down to the tail, and no height above it has a canonical
  -- block. The blocks, the transactions, the receipts and the tail are so far what they were.
  pub move_head-IsCanonical :
      (commits : Bool) (hash : ℕ) (c' : Chain)
      → c.head ≡ some current.hash
      → c.blocks current.hash ≡ some current
      → move_head commits c hash ≡ ok c'
      → (blk : Block) × (c.blocks hash ≡ some blk)
        × IsCanonical c' c'.forks blk
        × (c' ≡ record c { forks = c'.forks; head = some hash })
  unfolding move_head
  move_head-IsCanonical commits hash c' head_e current_e r =
      let (blk, there, r1) = >>=-eq-ok (get_block_by_hash c hash) _ r in
      let (head_hash, head_is, r2) = >>=-eq-ok (found c.head) _ r1 in
      let (cur, cur_there, r3) = >>=-eq-ok (get_block_by_hash c head_hash) _ r2 in
      let head_same : head_hash ≡ current.hash = cc (rw head_e at head_is) in
      let cur_e = get_block-ok c head_hash cur cur_there in
      let cur_same : cur ≡ current = cc (rw head_same at cur_e, current_e) in
      let (forks, new, r4) = >>=-eq-ok (new_forks c cur blk) _ r3 in
      let blk_e = get_block-ok c hash blk there in
      let canon =
        new_forks-IsCanonical blk forks hash blk_e
          (subst (λ b. new_forks c b blk ≡ ok forks) cur_same new) in
      subst
        (λ m.
          (b : Block) × (c.blocks hash ≡ some b)
          × IsCanonical m m.forks b
          × (m ≡ record c { forks = m.forks; head = some hash }))
        (commit-ok commits (record c { forks = forks; head = some hash }) c' r4)
        (
          blk,
          blk_e,
          record { at_top = canon.at_top; linked = canon.linked; above = canon.above },
          refl,
        )
