-- ===== src/Blockchain/Head/Reachable.antt =====
-- The blocks to which the head can move: SetHead ends, and it ends well on a block that descends from
-- a canonical one.
use teler.Base.{
  ℕ, zero, suc, ◌+◌, ◌-◌, ◌≤◌, ◌<◌, ◌≡◌, ◌≢◌, refl, sym, ap, ◌∙◌, subst, true, false, some, List,
  [], ◌∷◌, Map, put, ◌==◌, ==_iff, ltb, if◌then◌else◌, sub64, Bool-cases, inl, inr, arith,
}
use teler.Blockchain.Chain.{
  Block, Result, ok, ◌>>=◌, >>=-ok, Chain, found, get_block_by_hash, get_forks,
}
use teler.Blockchain.Head.{
  first_of_forks, rewrite_first, clear_canonical, set_ancestors, new_forks, move_head,
}
use teler.Blockchain.Head.Canonical.{hash_of, first, IsStored, IsCanonical}

-- No entry of forks is an empty list, and a height, from the tail on, at which a block is kept has an
-- entry.
pub record HasForks (c : Chain) : Type 0 where
  pub not_empty : (k : ℕ) → c.forks k ≢ some []
  pub forks_at :
      (h : ℕ) (b : Block)
      → c.blocks h ≡ some b
      → c.tail ≤ b.number
      → (x : ℕ) × (xs : List ℕ) × (c.forks b.number ≡ some (x ∷ xs))

-- The block with hash `h` is the one with hash `from`, or a stored one that descends from it.
pub data Descends (c : Chain) (from : ℕ) : ℕ → Type 0 where
  self : Descends c from from
  child :
      (h : ℕ) (b : Block) → c.blocks h ≡ some b → Descends c from b.parent_hash → Descends c from h

module _ (c : Chain) (stored : IsStored c) (has_forks : HasForks c) (from : ℕ) (base : Block)
    (base_e : c.blocks from ≡ some base) (kept : c.tail ≤ base.number) where
  -- A descendant is stored, and not below the block it descends from.
  Descends-stored :
      (h : ℕ) → Descends c from h → (b : Block) × (c.blocks h ≡ some b) × (base.number ≤ b.number)
  Descends-stored _ self = (base, base_e, omega arith)
  Descends-stored _ (child h b e d) =
      let (p, p_e, le) = Descends-stored b.parent_hash d in
      (b, e, omega (arith, stored.numbered h b p e p_e))

  rewrite_first-total :
      (w : Map (List ℕ)) (k hash x : ℕ) (xs : List ℕ)
      → c.forks k ≡ some (x ∷ xs)
      → rewrite_first c w k hash ≡ ok (put w k (hash ∷ xs))
  unfolding rewrite_first get_forks
  rewrite_first-total w k hash x xs e = rw e refl

  first-ok :
      (k x : ℕ) (xs : List ℕ)
      → c.forks k ≡ some (x ∷ xs)
      → (f : ℕ → Result (Map (List ℕ)))
      → (get_forks c k >>= λ forks. first_of_forks forks >>= f) ≡ f x
  unfolding get_forks
  first-ok k x xs e f = rw e refl

  -- One turn of the loop over the ancestors: at the canonical one, and above it.
  set_ancestors-met :
      (fuel : ℕ) (w : Map (List ℕ)) (k h x : ℕ) (xs : List ℕ) (b : Block)
      → c.forks k ≡ some (x ∷ xs)
      → (x == h) ≡ true
      → set_ancestors (suc fuel) c w k h b ≡ ok w
  unfolding set_ancestors get_forks
  set_ancestors-met fuel w k h x xs b f t = first-ok k x xs f _ ∙ rw t refl

  set_ancestors-up :
      (fuel : ℕ) (w : Map (List ℕ)) (k h x : ℕ) (xs : List ℕ) (b p : Block)
      → c.forks k ≡ some (x ∷ xs)
      → (x == h) ≡ false
      → c.blocks b.parent_hash ≡ some p
      → sub64 k 1 ≡ p.number
      → ltb (sub64 k 1) c.tail ≡ false
      → set_ancestors (suc fuel) c w k h b
        ≡ set_ancestors fuel c (put w k (h ∷ xs)) p.number b.parent_hash p
  unfolding set_ancestors get_forks get_block_by_hash
  set_ancestors-up fuel w k h x xs b p f t e down high =
      first-ok k x xs f _
      ∙ rw t (
          >>=-ok _ (rewrite_first-total w k h x xs f)
          ∙ (>>=-ok _ (ap found e)
              ∙ rw high (ap (λ i. set_ancestors fuel c (put w k (h ∷ xs)) i b.parent_hash p) down)))

  set_ancestors-total :
      (h : ℕ)
      → Descends c from h
      → first c.forks base.number ≡ from
      → (b : Block) → c.blocks h ≡ some b
      → (fuel : ℕ) → b.number < fuel
      → (w : Map (List ℕ)) → (w' : Map (List ℕ)) × (set_ancestors fuel c w b.number h b ≡ ok w')
  set_ancestors-total h d on b e zero lt w = absurd (omega arith)
  set_ancestors-total _ self on b e (suc fuel) lt w =
      let same : base ≡ b = cc in
      let (x, xs, f_e) = has_forks.forks_at from b e (subst (λ a. c.tail ≤ a.number) same kept) in
      let t : (x == from) ≡ true =
        (==_iff x from).1
          (sym (ap hash_of f_e) ∙ subst (λ a. first c.forks a.number ≡ from) same on) in
      (w, set_ancestors-met fuel w b.number from x xs b f_e t)
  set_ancestors-total _ (child h b0 e0 d) on b e (suc fuel) lt w =
      let same : b0 ≡ b = cc in
      let (p, p_e, le) = Descends-stored b0.parent_hash d in
      let p_e1 : c.blocks b.parent_hash ≡ some p =
        subst (λ a. c.blocks a.parent_hash ≡ some p) same p_e in
      let next = stored.numbered h b p e p_e1 in
      let room = stored.bounded h b e in
      let (x, xs, f_e) = has_forks.forks_at h b e (omega arith) in
      let down : sub64 b.number 1 ≡ p.number = omega arith in
      let high : ltb (sub64 b.number 1) c.tail ≡ false = ground arith in
      elim (Bool-cases (x == h)) [
        | inl t ↦ (w, set_ancestors-met fuel w b.number h x xs b f_e t)
        | inr t ↦
            let (w', done) =
              set_ancestors-total b0.parent_hash d on p p_e fuel (omega arith)
                (put w b.number (h ∷ xs)) in
            let done1 =
              subst
                (λ a.
                  set_ancestors fuel c (put w b.number (h ∷ xs)) p.number a.parent_hash p ≡ ok w')
                same done in
            (w', set_ancestors-up fuel w b.number h x xs b p f_e t p_e1 down high ∙ done1)
      ]

  clear_canonical-total :
      (n : ℕ) (w : Map (List ℕ)) (k : ℕ)
      → ((j : ℕ) → k ≤ j → j < k + n → (x : ℕ) × (xs : List ℕ) × (c.forks j ≡ some (x ∷ xs)))
      → (w' : Map (List ℕ)) × (clear_canonical c w k n ≡ ok w')
  unfolding clear_canonical
  clear_canonical-total zero w k h = (w, refl)
  clear_canonical-total (suc n) w k h =
      let (x, xs, e) = h k (omega arith) (omega arith) in
      let (w', done) =
        clear_canonical-total n (put w k (0 ∷ xs)) (k + 1)
          (λ j le lt. h j (omega arith) (omega arith)) in
      (w', rw (rewrite_first-total w k 0 x xs e) done)

  -- The heights between a block and the head have their forks.
  cleared-total :
      (current blk : Block)
      → IsCanonical c c.forks current
      → c.tail ≤ blk.number
      → (w : Map (List ℕ)) × ((if ltb blk.number current.number
            then clear_canonical c c.forks (blk.number + 1) (current.number - blk.number)
            else ok c.forks)
          ≡ ok w)
  cleared-total current blk canonical t = elim (Bool-cases (ltb blk.number current.number)) [
    | inl lt ↦
        let (w, done) =
          clear_canonical-total (current.number - blk.number) c.forks (blk.number + 1)
            (λ j le below.
              let (b, b_e, n, up) = canonical.linked (j - 1) (omega arith) (omega arith) in
              let n_is : b.number ≡ j = omega arith in
              subst (λ i. (x : ℕ) × (xs : List ℕ) × (c.forks i ≡ some (x ∷ xs))) n_is
                (has_forks.forks_at (first c.forks (suc (j - 1))) b b_e (omega arith))) in
        (w, rw lt done)
    | inr ge ↦ (c.forks, rw ge refl)
  ]

  new_forks-up :
      (current blk p : Block) (w : Map (List ℕ)) (x : ℕ) (xs : List ℕ)
      → (if ltb blk.number current.number
          then clear_canonical c c.forks (blk.number + 1) (current.number - blk.number)
          else ok c.forks)
        ≡ ok w
      → c.forks blk.number ≡ some (x ∷ xs)
      → c.blocks blk.parent_hash ≡ some p
      → sub64 blk.number 1 ≡ p.number
      → ltb (sub64 blk.number 1) c.tail ≡ false
      → new_forks c current blk
        ≡ set_ancestors
            (blk.number + 1)
            c
            (put w blk.number (blk.hash ∷ xs))
            p.number
            blk.parent_hash
            p
  unfolding new_forks get_block_by_hash
  new_forks-up current blk p w x xs cleared f e down high =
      >>=-ok _ cleared
      ∙ (>>=-ok _ (rewrite_first-total w blk.number blk.hash x xs f)
          ∙ (>>=-ok _ (ap found e)
              ∙ rw high (
                  ap
                    (λ i.
                      set_ancestors (blk.number + 1) c (put w blk.number (blk.hash ∷ xs)) i
                        blk.parent_hash p)
                    down)))

  move_head-done :
      (current blk : Block) (hash : ℕ) (w : Map (List ℕ))
      → c.blocks hash ≡ some blk
      → c.head ≡ some current.hash
      → c.blocks current.hash ≡ some current
      → new_forks c current blk ≡ ok w
      → move_head true c hash ≡ ok (record c { forks = w; head = some hash })
  unfolding move_head get_block_by_hash
  move_head-done current blk hash w e head_e current_e new = rw (e, head_e, current_e, new) refl

  -- Where blocks are stored under their hashes, one above their parents, each height of a stored
  -- block from the tail on has its forks, and the chain of the head, a stored block, is canonical:
  -- a call of SetHead whose commit goes through makes a stored block the head if its parent is, or
  -- descends from, a canonical stored block at the tail or above it.
  pub move_head-total :
      (current : Block)
      → IsCanonical c c.forks current
      → c.head ≡ some current.hash
      → c.blocks current.hash ≡ some current
      → first c.forks base.number ≡ from
      → (hash : ℕ) (blk : Block) → c.blocks hash ≡ some blk
      → Descends c from blk.parent_hash
      → (forks : Map (List ℕ)) × (move_head true c hash
          ≡ ok (record c { forks = forks; head = some hash }))
  move_head-total current canonical head_e current_e on hash blk e d =
      let (p, p_e, le) = Descends-stored blk.parent_hash d in
      let next = stored.numbered hash blk p e p_e in
      let room = stored.bounded hash blk e in
      let down : sub64 blk.number 1 ≡ p.number = omega arith in
      let high : ltb (sub64 blk.number 1) c.tail ≡ false = ground arith in
      let (x, xs, f_e) = has_forks.forks_at hash blk e (omega arith) in
      let (w1, cleared) = cleared-total current blk canonical (omega arith) in
      let (w2, done) =
        set_ancestors-total blk.parent_hash d on p p_e (blk.number + 1) (omega arith)
          (put w1 blk.number (blk.hash ∷ xs)) in
      (
        w2,
        move_head-done current blk hash w2 e head_e current_e
            (new_forks-up current blk p w1 x xs cleared f_e p_e down high ∙ done),
      )
