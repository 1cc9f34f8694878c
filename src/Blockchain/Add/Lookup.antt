-- ===== src/Blockchain/Add/Lookup.antt =====
-- What AddBlock leaves in the datastore for the queries.
use teler.Base.{
  ℕ, zero, suc, ◌+◌, ◌≤◌, ◌≡◌, ◌≢◌, refl, sym, ap, ◌∙◌, subst, Bool, true, false, none, some, List,
  [], ◌∷◌, Map, ◌==◌, ==_iff, ==_refl, ltb, length, get_elem?, if-true, if-false, Bool-cases,
  Option-cases, inl, inr, arith,
}
use teler.Blockchain.Chain.{
  Transaction, Receipt, Block, Located, ok, >>=-eq-ok, Chain, has_block, get_block_by_hash,
  get_transaction, get_receipt, commit-ok,
}
use teler.Blockchain.Add.{match_receipts, put_located, with_block, add_block}

module _ {A : Type 0} (key : A → ℕ) where
  -- The keys of a list differ from each other.
  abbrev pub Distinct : List A → Type 0
  Distinct xs =
      (i j : ℕ) (x y : A)
      → get_elem? xs i ≡ some x
      → get_elem? xs j ≡ some y
      → key x ≡ key y
      → i ≡ j

  put_located-other :
      (hash : ℕ) (k : ℕ) (xs : List A) (m : Map (Located A)) (index : ℕ)
      → ((i : ℕ) (x : A) → get_elem? xs i ≡ some x → key x ≢ k)
      → put_located key m hash index xs k ≡ m k
  unfolding put_located
  put_located-other hash k [] m index h = refl
  put_located-other hash k (x ∷ xs) m index h =
      let here = h 0 x refl in
      put_located-other hash k xs _ (index + 1) (λ i u e. h (suc i) u e) ∙ ground arith

  put_located-at :
      (hash : ℕ) (x : A) (n : ℕ) (xs : List A) (i : ℕ) (m : Map (Located A)) (index : ℕ)
      → index + i ≡ n
      → Distinct xs
      → get_elem? xs i ≡ some x
      → put_located key m hash index xs (key x)
        ≡ some (record { value = x; block_hash = hash; index = n })
  unfolding put_located
  put_located-at hash x n [] i m index at d e = cc
  put_located-at hash x n (y ∷ ys) zero m index at d e =
      let same : y ≡ x = cc in
      let here : index ≡ n = omega arith in
      put_located-other hash (key x) ys _ (index + 1)
        (λ i u ue s. absurd (omega (arith, d 0 (suc i) y u refl ue (ap key same ∙ sym s))))
      ∙ rw (same, ==_refl (key x))
          (ap (λ k. some (record { value = x; block_hash = hash; index = k })) here)
  put_located-at hash x n (y ∷ ys) (suc i) m index at d e =
      put_located-at hash x n ys i _ (index + 1) (omega arith)
        (λ a b u v ea eb s. omega (arith, d (suc a) (suc b) u v ea eb s)) e

match_receipts-head :
    (t : Transaction) (ts : List Transaction) (r : Receipt) (rs : List Receipt)
    → match_receipts (t ∷ ts) (r ∷ rs) ≡ ok tt
    → (r.tx_hash ≡ t.hash) × (match_receipts ts rs ≡ ok tt)
unfolding match_receipts
match_receipts-head t ts r rs m = elim (Bool-cases (r.tx_hash == t.hash)) [
  | inl same ↦ ((==_iff r.tx_hash t.hash).0 same, rw same at m)
  | inr differ ↦ cc (rw differ at m)
]

match_receipts-at :
    (ts : List Transaction) (rs : List Receipt) (i : ℕ) (t : Transaction)
    → match_receipts ts rs ≡ ok tt
    → get_elem? ts i ≡ some t
    → (r : Receipt) × (get_elem? rs i ≡ some r) × (r.tx_hash ≡ t.hash)
unfolding match_receipts
match_receipts-at [] rs i t m e = cc
match_receipts-at (u ∷ us) [] i t m e = cc
match_receipts-at (u ∷ us) (r ∷ rs) zero t m e =
    let same : u ≡ t = cc in (r, refl, (match_receipts-head u us r rs m).0 ∙ ap (λ x. x.hash) same)
match_receipts-at (u ∷ us) (r ∷ rs) (suc i) t m e =
    match_receipts-at us rs i t (match_receipts-head u us r rs m).1 e

match_receipts-back :
    (ts : List Transaction) (rs : List Receipt) (i : ℕ) (r : Receipt)
    → match_receipts ts rs ≡ ok tt
    → length ts ≡ length rs
    → get_elem? rs i ≡ some r
    → (t : Transaction) × (get_elem? ts i ≡ some t) × (r.tx_hash ≡ t.hash)
match_receipts-back ts [] i r m l e = cc
match_receipts-back [] (x ∷ rs) i r m l e = absurd (omega (arith, l))
match_receipts-back (t ∷ ts) (x ∷ rs) zero r m l e =
    let same : x ≡ r = cc in
    (t, refl, sym (ap (λ y. y.tx_hash) same) ∙ (match_receipts-head t ts x rs m).0)
match_receipts-back (t ∷ ts) (x ∷ rs) (suc i) r m l e =
    match_receipts-back ts rs i r (match_receipts-head t ts x rs m).1 (omega (arith, l)) e

-- A call of AddBlock on a new block, at the tail or above it, that went through.
pub add_block-ok :
    (commits : Bool) (c c' : Chain) (blk : Block) (receipts : List Receipt)
    → c.tail ≤ blk.number
    → c.blocks blk.hash ≡ none
    → add_block commits c blk receipts ≡ ok c'
    → (with_block c blk receipts ≡ c')
      × (match_receipts blk.transactions receipts ≡ ok tt)
      × (length blk.transactions ≡ length receipts)
      × ((p : Block) × (c.blocks blk.parent_hash ≡ some p))
unfolding add_block has_block
add_block-ok commits c c' blk receipts high new r =
    let low : ltb blk.number c.tail ≡ false = ground arith in
    let unknown : has_block c blk.hash ≡ false = rw (new, has_block) refl in
    let r2 = if-false _ _ _ unknown (if-false _ _ _ low r) in
    elim (Option-cases (c.blocks blk.parent_hash)) [
      | inl nothing ↦
          let orphan : has_block c blk.parent_hash ≡ false = rw (nothing, has_block) refl in
          cc (if-false _ _ _ orphan r2)
      | inr (p, p_e) ↦
          let known : has_block c blk.parent_hash ≡ true = rw (p_e, has_block) refl in
          let r3 = if-true _ _ _ known r2 in
          elim (Bool-cases (length blk.transactions == length receipts)) [
            | inl same ↦
                let (u, matched, r4) =
                  >>=-eq-ok (match_receipts blk.transactions receipts) _ (if-true _ _ _ same r3) in
                (
                  commit-ok commits (with_block c blk receipts) c' r4,
                  matched,
                  (==_iff (length blk.transactions) (length receipts)).0 same,
                  (p, p_e),
                )
            | inr differ ↦ cc (if-false _ _ _ differ r3)
          ]
    ]

-- A call of AddBlock on a new block, at the tail or above it, whose transactions have different
-- hashes, that returns without an error: the block is found under its hash, and each of its
-- transactions and the receipt at the same index are found under the transaction's hash, with the
-- block's hash and this index.
pub add_block-located :
    (commits : Bool) (c c' : Chain) (blk : Block) (receipts : List Receipt) (i : ℕ)
    (t : Transaction)
    → c.tail ≤ blk.number
    → c.blocks blk.hash ≡ none
    → Distinct (λ (t : Transaction). t.hash) blk.transactions
    → add_block commits c blk receipts ≡ ok c'
    → get_elem? blk.transactions i ≡ some t
    → (get_block_by_hash c' blk.hash ≡ ok blk)
      × (get_transaction c' t.hash ≡ some (record { value = t; block_hash = blk.hash; index = i }))
      × (r : Receipt) × (get_elem? receipts i ≡ some r)
      × (get_receipt c' t.hash ≡ some (record { value = r; block_hash = blk.hash; index = i }))
unfolding with_block get_block_by_hash get_transaction get_receipt
add_block-located commits c c' blk receipts i t high new d ran e =
    let (c_is, matched, same, parent) = add_block-ok commits c c' blk receipts high new ran in
    let (r, r_e, key_e) = match_receipts-at blk.transactions receipts i t matched e in
    let receipts_differ : Distinct (λ (r : Receipt). r.tx_hash) receipts = λ i j x y ex ey s.
      let (t, te, t_is) = match_receipts-back blk.transactions receipts i x matched same ex in
      let (u, ue, u_is) = match_receipts-back blk.transactions receipts j y matched same ey in
      d i j t u te ue (sym t_is ∙ s ∙ u_is) in
    subst
      (λ m.
        (get_block_by_hash m blk.hash ≡ ok blk)
        × (get_transaction m t.hash ≡ some (record { value = t; block_hash = blk.hash; index = i }))
        × (r : Receipt) × (get_elem? receipts i ≡ some r)
        × (get_receipt m t.hash ≡ some (record { value = r; block_hash = blk.hash; index = i })))
      c_is
      (
        rw (==_refl blk.hash) refl,
        put_located-at (λ t. t.hash) blk.hash t i blk.transactions i c.transactions 0 (omega arith)
            d e,
        r,
        r_e,
        subst
            (λ k.
              put_located (λ r. r.tx_hash) c.receipts blk.hash 0 receipts k
              ≡ some (record { value = r; block_hash = blk.hash; index = i }))
            key_e
            (put_located-at (λ r. r.tx_hash) blk.hash r i receipts i c.receipts 0 (omega arith)
              receipts_differ r_e),
      )
