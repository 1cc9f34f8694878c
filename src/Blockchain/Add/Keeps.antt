-- ===== src/Blockchain/Add/Keeps.antt =====
-- What AddBlock keeps: the invariants of the chain.
use teler.Base.{
  ℕ, suc, ◌^◌, ◌<◌, ◌≤◌, ◌≡◌, ◌≢◌, ◌⊎◌, refl, sym, ap, ◌∙◌, subst, Bool, Option, none, some, List,
  [], ◌∷◌, ◌++◌, Map, put, ◌==◌, ==_iff, ==_refl, Bool-cases, inl, inr, arith,
}
use teler.Blockchain.Chain.{Receipt, Block, ok, Chain}
use teler.Blockchain.Add.{extended, with_block, add_block}
use teler.Blockchain.Add.Lookup.{add_block-ok}
use teler.Blockchain.Head.Canonical.{hash_of, first, IsStored, IsCanonical}
use teler.Blockchain.Head.Reachable.{HasForks}

put_cases {ℓ} :
    {V : Type ℓ} (m : Map V) (k : ℕ) (v : V) (j : ℕ) (w : V)
    → put m k v j ≡ some w
    → ((j ≡ k) × (v ≡ w)) ⊎ ((j ≢ k) × (m j ≡ some w))
put_cases m k v j w e = elim (Bool-cases (j == k)) [
  | inl t ↦ inl ((==_iff j k).0 t, cc (rw t at e))
  | inr t ↦ inr (λ s. ground arith, rw t at e)
]

put_other {ℓ} :
    {V : Type ℓ} (m : Map V) (k : ℕ) (v : V) (j : ℕ) (w : V)
    → m k ≡ none
    → m j ≡ some w
    → put m k v j ≡ some w
put_other m k v j w n e = elim (Bool-cases (j == k)) [
  | inl t ↦ cc (rw ((==_iff j k).0 t) at e, n)
  | inr t ↦ rw t e
]

extended_first :
    (o : Option (List ℕ)) (h : ℕ) → o ≢ some [] → hash_of (some (extended o h)) ≡ hash_of o
extended_first none h ne = refl
extended_first (some []) h ne = absurd (ne refl)
extended_first (some (x ∷ xs)) h ne = refl

extended_cons : (o : Option (List ℕ)) (h : ℕ) → (x : ℕ) × (xs : List ℕ) × (extended o h ≡ x ∷ xs)
extended_cons none h = (0, h ∷ [], refl)
extended_cons (some []) h = (h, [], refl)
extended_cons (some (x ∷ xs)) h = (x, xs ++ h ∷ [], refl)

module _ (c : Chain) (blk : Block) (receipts : List Receipt) (new : c.blocks blk.hash ≡ none) where
  put_off : (j : ℕ) → j ≢ blk.hash → put c.blocks blk.hash blk j ≡ c.blocks j
  put_off j ne = ground arith

  with_block-IsStored :
      IsStored c
      → blk.hash ≢ 0
      → blk.number < 2 ^ 64
      → (parent : Block) → c.blocks blk.parent_hash ≡ some parent
      → blk.number ≡ suc parent.number
      → ((h : ℕ) (b : Block)
          → c.blocks h ≡ some b
          → b.parent_hash ≡ blk.hash
          → b.number ≡ suc blk.number)
      → IsStored (with_block c blk receipts)
  unfolding with_block
  with_block-IsStored stored nonzero bound parent p_e next orphans = record {
    no_zero = rw ((put_off 0 (λ e. nonzero (sym e)))) stored.no_zero;
    hashed = λ h b e. elim (put_cases c.blocks blk.hash blk h b e) [
      | inl (h_is, same) ↦ ap (λ a. a.hash) (sym same) ∙ sym h_is
      | inr (h_not, old) ↦ stored.hashed h b old
    ];
    numbered = λ h b p e pe. elim (put_cases c.blocks blk.hash blk h b e) [
      | inl (h_is, same) ↦ elim (put_cases c.blocks blk.hash blk b.parent_hash p pe) [
        | inl (own, same_p) ↦ cc (own, same, p_e, new)
        | inr (other, old_p) ↦
            let parent_is : c.blocks blk.parent_hash ≡ some p =
              subst (λ a. c.blocks a.parent_hash ≡ some p) (sym same) old_p in
            let at_p : parent ≡ p = cc in
            ap (λ a. a.number) (sym same) ∙ next ∙ ap (λ a. suc a.number) at_p
      ]
      | inr (h_not, old) ↦ elim (put_cases c.blocks blk.hash blk b.parent_hash p pe) [
        | inl (orphan, same_p) ↦ rw (← same_p) (orphans h b old orphan)
        | inr (other, old_p) ↦ stored.numbered h b p old old_p
      ]
    ];
    bounded = λ h b e. elim (put_cases c.blocks blk.hash blk h b e) [
      | inl (h_is, same) ↦ rw (← same) bound
      | inr (h_not, old) ↦ stored.bounded h b old
    ];
  }

  first_same : HasForks c → (i : ℕ) → first (with_block c blk receipts).forks i ≡ first c.forks i
  unfolding with_block
  first_same has_forks i = elim (Bool-cases (i == blk.number)) [
    | inl t ↦
        rw ((==_iff i blk.number).0 t, ==_refl blk.number)
          (extended_first (c.forks blk.number) blk.hash (has_forks.not_empty blk.number))
    | inr t ↦ rw t refl
  ]

  forks_kept :
      (k x : ℕ) (xs : List ℕ)
      → c.forks k ≡ some (x ∷ xs)
      → (y : ℕ) × (ys : List ℕ) × (put c.forks blk.number (extended (c.forks blk.number) blk.hash) k
          ≡ some (y ∷ ys))
  forks_kept k x xs e = elim (Bool-cases (k == blk.number)) [
    | inl t ↦
        let (y, ys, is) = extended_cons (c.forks blk.number) blk.hash in (y, ys, rw t (ap some is))
    | inr t ↦ (x, xs, rw t e)
  ]

  with_block-HasForks : HasForks c → HasForks (with_block c blk receipts)
  unfolding with_block
  with_block-HasForks has_forks = record {
    not_empty = λ k e. elim (Bool-cases (k == blk.number)) [
      | inl t ↦ let (y, ys, is) = extended_cons (c.forks blk.number) blk.hash in cc (rw t at e, is)
      | inr t ↦ has_forks.not_empty k (rw t at e)
    ];
    forks_at = λ h b e t. elim (put_cases c.blocks blk.hash blk h b e) [
      | inl (h_is, same) ↦
          let (y, ys, is) = extended_cons (c.forks blk.number) blk.hash in
          (y, ys, rw (← same, ==_refl blk.number) (ap some is))
      | inr (h_not, old) ↦
          let (x, xs, f) = has_forks.forks_at h b old t in forks_kept b.number x xs f
    ];
  }

  with_block-IsCanonical :
      (current : Block)
      → HasForks c
      → IsCanonical c c.forks current
      → IsCanonical (with_block c blk receipts) (with_block c blk receipts).forks current
  unfolding with_block
  with_block-IsCanonical current has_forks canonical = record {
    at_top = first_same has_forks current.number ∙ canonical.at_top;
    linked = λ i t lt.
        let (b, b_e, n, up) = canonical.linked i t lt in
        let kept = put_other c.blocks blk.hash blk (first c.forks (suc i)) b new b_e in
        (
          b,
          ap (λ h. put c.blocks blk.hash blk h) (first_same has_forks (suc i)) ∙ kept,
          n,
          first_same has_forks i ∙ up,
        );
    above = λ i lt. first_same has_forks i ∙ canonical.above i lt;
  }

-- A call of AddBlock on a new block, at the tail or above it, that goes through keeps the invariants of
-- the chain: how blocks are stored, that each height has its forks, and the canonical chain under
-- the head, which stays what it was. The block's hash is not 0, its number is one above its parent's
-- and fits in 64 bits, and so does that of a stored block that names it as its parent.
pub add_block-keeps :
    (commits : Bool) (c c' : Chain) (blk current : Block) (receipts : List Receipt)
    → IsStored c
    → HasForks c
    → IsCanonical c c.forks current
    → c.tail ≤ blk.number
    → c.blocks blk.hash ≡ none
    → blk.hash ≢ 0
    → blk.number < 2 ^ 64
    → ((parent : Block) → c.blocks blk.parent_hash ≡ some parent → blk.number ≡ suc parent.number)
    → ((h : ℕ) (b : Block)
        → c.blocks h ≡ some b
        → b.parent_hash ≡ blk.hash
        → b.number ≡ suc blk.number)
    → add_block commits c blk receipts ≡ ok c'
    → IsStored c' × HasForks c' × IsCanonical c' c'.forks current × (c'.head ≡ c.head)
unfolding with_block
add_block-keeps commits c c' blk current receipts stored has_forks canonical high new nonzero bound
      next orphans r =
    let (c_is, matched, same, (p, p_e)) = add_block-ok commits c c' blk receipts high new r in
    subst (λ m. IsStored m × HasForks m × IsCanonical m m.forks current × (m.head ≡ c.head)) c_is
      (
        with_block-IsStored c blk receipts new stored nonzero bound p p_e (next p p_e) orphans,
        with_block-HasForks c blk receipts new has_forks,
        with_block-IsCanonical c blk receipts new current has_forks canonical,
        refl,
      )
