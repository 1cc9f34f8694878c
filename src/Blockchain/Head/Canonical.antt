-- ===== src/Blockchain/Head/Canonical.antt =====
-- SetHead makes the new head and its ancestors the canonical chain.
use teler.Base.{
  ℕ, zero, suc, ◌^◌, ◌≤◌, ◌<◌, ◌≡◌, ◌≢◌, refl, sym, ap, ◌∙◌, subst, Option, none, some, List, [],
  ◌∷◌, Map, put, ◌==◌, ==_iff, ==_refl, ltb, leb, sub64, Bool-cases, inl, inr, arith,
}
use teler.Blockchain.Chain.{Block, ok, >>=-eq-ok, Chain, found, get_block_by_hash, get_forks}
use teler.Blockchain.Head.{set_first, first_of_forks, rewrite_first, set_ancestors}

-- The canonical hash at a height: 0 where there is none.
abbrev pub hash_of : Option (List ℕ) → ℕ
hash_of none = 0
hash_of (some []) = 0
hash_of (some (x ∷ xs)) = x

abbrev pub first : Map (List ℕ) → ℕ → ℕ
first f i = hash_of (f i)

-- A block is kept under its hash, which is not 0, and one above its parent.
pub record IsStored (c : Chain) : Type 0 where
  pub no_zero : c.blocks 0 ≡ none
  pub hashed : (h : ℕ) (b : Block) → c.blocks h ≡ some b → b.hash ≡ h
  pub numbered :
      (h : ℕ) (b p : Block)
      → c.blocks h ≡ some b
      → c.blocks b.parent_hash ≡ some p
      → b.number ≡ suc p.number
  pub bounded : (h : ℕ) (b : Block) → c.blocks h ≡ some b → b.number < 2 ^ 64

-- The canonical hashes of `f` are `top` and, down to the tail, its ancestors, and there are none
-- above it.
pub record IsCanonical (c : Chain) (f : Map (List ℕ)) (top : Block) : Type 0 where
  pub at_top : first f top.number ≡ top.hash
  pub linked :
      (i : ℕ)
      → c.tail ≤ i
      → i < top.number
      → (b : Block) × (c.blocks (first f (suc i)) ≡ some b)
        × (b.number ≡ suc i)
        × (first f i ≡ b.parent_hash)
  pub above : (i : ℕ) → top.number < i → first f i ≡ 0

pub get_block-ok :
    (c : Chain) (h : ℕ) (b : Block) → get_block_by_hash c h ≡ ok b → c.blocks h ≡ some b
unfolding get_block_by_hash
get_block-ok c h b e = ground arith

pub rewrite_first-ok :
    (c : Chain) (w w' : Map (List ℕ)) (k h : ℕ)
    → rewrite_first c w k h ≡ ok w'
    → (first w' k ≡ h) × ((j : ℕ) → j ≢ k → w' j ≡ w j)
unfolding rewrite_first get_forks
rewrite_first-ok c w w' k h e =
    let (forks, g, e1) = >>=-eq-ok (found (c.forks k)) _ e in
    let (new, n, e2) = >>=-eq-ok (set_first forks h) _ e1 in
    let w_is : put w k new ≡ w' = cc in
    subst (λ m. (first m k ≡ h) × ((j : ℕ) → j ≢ k → m j ≡ w j)) w_is
      (
        first_put forks new n,
        λ j ne. elim (Bool-cases (j == k)) [
          | inl t ↦ absurd (ne ((==_iff j k).0 t))
          | inr t ↦ rw t
        ],
      )
  where
    first_put : (forks new : List ℕ) → set_first forks h ≡ ok new → first (put w k new) k ≡ h
    first_put [] new n = cc
    first_put (x ∷ xs) new n =
        let new_is : h ∷ xs ≡ new = cc in
        subst (λ l. first (put w k l) k ≡ h) new_is (rw (==_refl k) refl)

-- The links of `f` from the tail up to `k`.
abbrev pub Linked : Chain → Map (List ℕ) → ℕ → Type 0
Linked c f k =
    (i : ℕ)
    → c.tail ≤ i
    → i < k
    → (b : Block) × (c.blocks (first f (suc i)) ≡ some b)
      × (b.number ≡ suc i)
      × (first f i ≡ b.parent_hash)

Linked-agree :
    (c : Chain) (f g : Map (List ℕ)) (k : ℕ)
    → ((j : ℕ) → j ≤ k → g j ≡ f j)
    → Linked c f k
    → Linked c g k
Linked-agree c f g k agree h i t lt =
    rw (agree i (omega arith), agree (suc i) (omega arith)) (h i t lt)

first_is :
    (c : Chain) (k x : ℕ) (forks : List ℕ)
    → get_forks c k ≡ ok forks
    → first_of_forks forks ≡ ok x
    → first c.forks k ≡ x
unfolding get_forks
first_is c k x [] g f = cc
first_is c k x (y ∷ ys) g f = ground arith

-- One more ancestor on top of a chain.
pub Linked-suc :
    (c : Chain) (f : Map (List ℕ)) (k : ℕ) (blk : Block)
    → Linked c f k
    → c.blocks (first f (suc k)) ≡ some blk
    → blk.number ≡ suc k
    → first f k ≡ blk.parent_hash
    → Linked c f (suc k)
Linked-suc c f k blk l e n p i t lt = elim (Bool-cases (i == k)) [
  | inl same ↦ rw ((==_iff i k).0 same) (blk, e, n, p)
  | inr differ ↦ l i t (ground arith)
]

module _ (c : Chain) (stored : IsStored c) (current : Block)
    (canonical : IsCanonical c c.forks current) where
  -- A canonical block that is stored is not above the head.
  canonical-le :
      (k h : ℕ) (b : Block) → c.blocks h ≡ some b → first c.forks k ≡ h → k ≤ current.number
  canonical-le k h b e f = elim (Bool-cases (leb k current.number)) [
    | inl t ↦ ground arith
    | inr t ↦
        let zero_h : h ≡ 0 = sym f ∙ canonical.above k (ground arith) in
        cc (rw zero_h at e, stored.no_zero)
  ]

  pub set_ancestors-ok :
      (fuel : ℕ) (w w' : Map (List ℕ)) (k h : ℕ) (blk : Block)
      → c.blocks h ≡ some blk
      → blk.number ≡ k
      → ((j : ℕ) → j ≤ k → w j ≡ c.forks j)
      → set_ancestors fuel c w k h blk ≡ ok w'
      → ((j : ℕ) → k < j → w' j ≡ w j) × (first w' k ≡ h) × Linked c w' k
  unfolding set_ancestors get_forks
  set_ancestors-ok zero w w' k h blk e n below r = cc
  set_ancestors-ok (suc fuel) w w' k h blk e n below r =
      let (forks, g, r1) = >>=-eq-ok (found (c.forks k)) _ r in
      let (x, f, r2) = >>=-eq-ok (first_of_forks forks) _ r1 in
      let was = first_is c k x forks g f in
      elim (Bool-cases (x == h)) [
        | inl t ↦
            let w_is : w ≡ w' = cc (rw t at r2) in
            let met : first c.forks k ≡ h = was ∙ (==_iff x h).0 t in
            let up = canonical-le k h blk e met in
            subst (λ m. ((j : ℕ) → k < j → m j ≡ w j) × (first m k ≡ h) × Linked c m k) w_is
              (
                λ j lt. refl,
                rw (below k (omega arith)) met,
                Linked-agree c c.forks w k below (λ i tl lt. canonical.linked i tl (omega arith)),
              )
        | inr t ↦
            let (w1, rewritten, r3) = >>=-eq-ok (rewrite_first c w k h) _ (rw t at r2) in
            let (gp, there, r4) = >>=-eq-ok (get_block_by_hash c blk.parent_hash) _ r3 in
            let gp_e = get_block-ok c blk.parent_hash gp there in
            let (at_k, elsewhere) = rewrite_first-ok c w w1 k h rewritten in
            let k_is : k ≡ suc gp.number = sym n ∙ stored.numbered h blk gp e gp_e in
            let room = stored.bounded h blk e in
            let down : sub64 k 1 ≡ gp.number = omega arith in
            elim (Bool-cases (ltb (sub64 k 1) c.tail)) [
              | inl low ↦ cc (rw low at r4)
              | inr high ↦
                  let r5 : set_ancestors fuel c w1 gp.number blk.parent_hash gp ≡ ok w' =
                    rw down at (rw high at r4) in
                  let (same, at_gp, linked) =
                    set_ancestors-ok fuel w1 w' gp.number blk.parent_hash gp gp_e refl
                      (λ j le. elsewhere j (omega arith) ∙ below j (omega arith)) r5 in
                  let at_top : first w' (suc gp.number) ≡ h =
                    ap hash_of (same (suc gp.number) (omega arith)) ∙ rw (← k_is) at_k in
                  (
                    λ j lt. same j (omega arith) ∙ elsewhere j (omega arith),
                    rw k_is at_top,
                    rw k_is (Linked-suc c w' gp.number blk linked (rw at_top e) (n ∙ k_is) at_gp),
                  )
            ]
      ]
