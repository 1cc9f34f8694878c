-- ===== src/Blockchain/Tests.antt =====
-- The theorems on the chain at concrete chains.
use teler.Base.{
  ℕ, zero, suc, ◌≤◌, ◌≡◌, refl, true, none, some, List, [], ◌∷◌, Map, put, get_elem?, arith,
  Bool-cases, ◌==◌, ==_iff, inl, inr, subst, empty,
}
use teler.Blockchain.Chain.{
  Transaction, Receipt, Block, ok, Chain, new_blockchain, get_block_by_hash, get_transaction,
  get_receipt,
}
use teler.Blockchain.Add.{with_block, add_block}
use teler.Blockchain.Add.Lookup.{Distinct, add_block-located}
use teler.Blockchain.Add.Keeps.{add_block-keeps}
use teler.Blockchain.Head.{move_head}
use teler.Blockchain.Head.Canonical.{first, IsStored, IsCanonical}
use teler.Blockchain.Head.Moves.{move_head-IsCanonical}
use teler.Blockchain.Head.Reachable.{HasForks, self, move_head-total}
use teler.Blockchain.Head.{try_prune}
use teler.Blockchain.Head.Pruned.{AllAt, IsIndexed, try_prune-keeps}
use teler.Blockchain.Head.PrunedCanonical.{try_prune-IsCanonical}
use teler.Blockchain.Genesis.{new_blockchain-IsCanonical}

abbrev genesis : Block
genesis = record { hash = 1; parent_hash = 0; number = 0; transactions = [] }

abbrev sample_transaction : Transaction
sample_transaction = record { hash = 50; content = 8 }

abbrev sample_receipt : Receipt
sample_receipt = record { tx_hash = 50; content = 9 }

abbrev block_one : Block
block_one = record { hash = 2; parent_hash = 1; number = 1; transactions = sample_transaction ∷ [] }

abbrev new_chain : Chain
new_chain = new_blockchain 128 32 genesis

abbrev longer : Chain
longer = with_block new_chain block_one (sample_receipt ∷ [])

new_blockchain-IsCanonical_example :
    IsStored new_chain
    × HasForks new_chain
    × IsCanonical new_chain new_chain.forks genesis
    × (new_chain.head ≡ some 1)
new_blockchain-IsCanonical_example =
    new_blockchain-IsCanonical 128 32 genesis refl (λ e. cc) (λ e. cc)

new_chain_ok :
    IsStored new_chain
    × HasForks new_chain
    × IsCanonical new_chain new_chain.forks genesis
    × (new_chain.head ≡ some 1)
new_chain_ok = new_blockchain-IsCanonical 128 32 genesis refl (λ e. cc) (λ e. cc)

longer_is : add_block true new_chain block_one (sample_receipt ∷ []) ≡ ok longer
unfolding add_block new_blockchain
longer_is = refl

block_one_new : new_chain.blocks block_one.hash ≡ none
unfolding new_blockchain
block_one_new = refl

parent_below :
    (parent : Block)
    → new_chain.blocks block_one.parent_hash ≡ some parent
    → block_one.number ≡ suc parent.number
unfolding new_blockchain
parent_below parent e = ground arith

no_orphans :
    (h : ℕ) (b : Block)
    → new_chain.blocks h ≡ some b
    → b.parent_hash ≡ block_one.hash
    → b.number ≡ suc block_one.number
unfolding new_blockchain
no_orphans h b e p = ground arith

above_tail : new_chain.tail ≤ block_one.number
unfolding new_blockchain
above_tail = omega arith

add_block-keeps_example :
    IsStored longer
    × HasForks longer
    × IsCanonical longer longer.forks genesis
    × (longer.head ≡ new_chain.head)
add_block-keeps_example =
    add_block-keeps true new_chain longer block_one genesis (sample_receipt ∷ []) new_chain_ok.0
      new_chain_ok.1 new_chain_ok.2 above_tail block_one_new (λ e. cc) (omega arith) parent_below
      no_orphans longer_is

one_transaction : Distinct (λ (t : Transaction). t.hash) block_one.transactions
one_transaction zero zero x y ex ey e = refl
one_transaction zero (suc j) x y ex ey e = cc
one_transaction (suc i) j x y ex ey e = cc

add_block-located_example :
    (get_block_by_hash longer 2 ≡ ok block_one)
    × (get_transaction longer 50
        ≡ some (record { value = sample_transaction; block_hash = 2; index = 0 }))
    × (r : Receipt) × (get_elem? (sample_receipt ∷ []) 0 ≡ some r)
    × (get_receipt longer 50 ≡ some (record { value = r; block_hash = 2; index = 0 }))
add_block-located_example =
    add_block-located true new_chain longer block_one (sample_receipt ∷ []) 0 sample_transaction
      above_tail block_one_new one_transaction longer_is refl

longer_ok :
    IsStored longer
    × HasForks longer
    × IsCanonical longer longer.forks genesis
    × (longer.head ≡ new_chain.head)
longer_ok =
    add_block-keeps true new_chain longer block_one genesis (sample_receipt ∷ []) new_chain_ok.0
      new_chain_ok.1 new_chain_ok.2 above_tail block_one_new (λ e. cc) (omega arith) parent_below
      no_orphans longer_is

abbrev moved : Chain
moved = record longer { forks = put longer.forks 1 (2 ∷ 2 ∷ []); head = some 2 }

moved_is : move_head true longer 2 ≡ ok moved
unfolding move_head new_blockchain with_block
moved_is = refl

head_one : longer.head ≡ some genesis.hash
unfolding with_block new_blockchain
head_one = refl

genesis_there : longer.blocks genesis.hash ≡ some genesis
unfolding with_block new_blockchain
genesis_there = refl

move_head-IsCanonical_example :
    (blk : Block) × (longer.blocks 2 ≡ some blk)
    × IsCanonical moved moved.forks blk
    × (moved ≡ record longer { forks = moved.forks; head = some 2 })
move_head-IsCanonical_example =
    move_head-IsCanonical longer longer_ok.0 genesis longer_ok.2 true 2 moved head_one genesis_there
      moved_is

block_one_there : longer.blocks 2 ≡ some block_one
unfolding with_block new_blockchain
block_one_there = refl

kept : longer.tail ≤ genesis.number
unfolding with_block new_blockchain
kept = omega arith

canonical_genesis : first longer.forks genesis.number ≡ 1
unfolding with_block new_blockchain
canonical_genesis = refl

move_head-total_example :
    (forks : Map (List ℕ)) × (move_head true longer 2
      ≡ ok (record longer { forks = forks; head = some 2 }))
move_head-total_example =
    move_head-total longer longer_ok.0 longer_ok.1 1 genesis genesis_there kept genesis longer_ok.2
      head_one genesis_there canonical_genesis 2 block_one block_one_there self

-- A chain that retains one block and prunes one height at a time.
abbrev short : Chain
short = with_block (new_blockchain 1 1 genesis) block_one (sample_receipt ∷ [])

short-IsIndexed : IsIndexed short
unfolding with_block new_blockchain
short-IsIndexed = record {
  indexed = λ k forks e. elim (Bool-cases (k == 1)) [
    | inl t ↦
        let is : 0 ∷ 2 ∷ [] ≡ forks = cc (rw t at e) in
        rw ((==_iff k 1).0 t) (subst (AllAt short 1) is (λ b f. cc, (λ b f. ground arith, tt)))
    | inr t ↦ elim (Bool-cases (k == 0)) [
      | inl u ↦
          let is : 1 ∷ 1 ∷ [] ≡ forks = cc (rw (t, u) at e) in
          rw ((==_iff k 0).0 u)
            (subst (AllAt short 0) is (λ b f. ground arith, (λ b f. ground arith, tt)))
      | inr u ↦ cc (rw (t, u) at e)
    ]
  ];
}

block_one_short : short.blocks 2 ≡ some block_one
unfolding with_block new_blockchain
block_one_short = refl

short_low : short.tail ≤ 2
unfolding with_block new_blockchain
short_low = omega arith

short_frequency : short.pruning_frequency ≤ short.max_block_to_retain
unfolding with_block new_blockchain
short_frequency = omega arith

short_pruned : (try_prune (λ k. true) true short 2).tail ≤ block_one.number
unfolding try_prune with_block new_blockchain
short_pruned = omega arith

try_prune-keeps_example :
    ((try_prune (λ k. true) true short 2).tail ≤ 2)
    × ((try_prune (λ k. true) true short 2).blocks 2 ≡ some block_one)
    × ((try_prune (λ k. true) true short 2).forks 1 ≡ short.forks 1)
try_prune-keeps_example =
    try_prune-keeps (λ k. true) short 2 2 block_one short-IsIndexed short_low (omega arith)
      short_frequency block_one_short short_pruned

abbrev block_two : Block
block_two = record { hash = 3; parent_hash = 2; number = 2; transactions = [] }

-- A chain of three canonical blocks, which retains one height and prunes one at a time.
abbrev tall : Chain
tall = record moved {
  max_block_to_retain = 1;
  pruning_frequency = 1;
  tail = 0;
  blocks = put (put (put empty 1 genesis) 2 block_one) 3 block_two;
  forks = put (put (put empty 0 (1 ∷ 1 ∷ [])) 1 (2 ∷ 2 ∷ [])) 2 (3 ∷ 3 ∷ []);
  head = some 3;
}

tall-IsStored : IsStored tall
tall-IsStored = record {
  no_zero = refl;
  hashed = λ h b e. ground arith;
  numbered = λ h b q e f. ground arith;
  bounded = λ h b e. ground arith;
}

tall-IsCanonical : IsCanonical tall tall.forks block_two
tall-IsCanonical = record {
  at_top = refl;
  linked = λ i t lt. elim (Bool-cases (i == 0)) [
    | inl u ↦ rw ((==_iff i 0).0 u) (block_one, refl, refl, refl)
    | inr u ↦ let one : i ≡ 1 = ground arith in rw one (block_two, refl, refl, refl)
  ];
  above = λ i lt. ground arith;
}

all_at :
    (k x : ℕ) (forks : List ℕ)
    → x ∷ x ∷ [] ≡ forks
    → ((b : Block) → tall.blocks x ≡ some b → b.number ≡ k)
    → AllAt tall k forks
all_at k x forks e h = subst (AllAt tall k) e (h, (h, tt))

tall-IsIndexed : IsIndexed tall
tall-IsIndexed = record {
  indexed = λ k forks e. elim (Bool-cases (k == 2)) [
    | inl t ↦ rw ((==_iff k 2).0 t) (all_at 2 3 forks (cc (rw t at e)) (λ b f. ground arith))
    | inr t ↦ elim (Bool-cases (k == 1)) [
      | inl u ↦ rw ((==_iff k 1).0 u) (all_at 1 2 forks (cc (rw (t, u) at e)) (λ b f. ground arith))
      | inr u ↦ elim (Bool-cases (k == 0)) [
        | inl v ↦
            rw ((==_iff k 0).0 v) (all_at 0 1 forks (cc (rw (t, u, v) at e)) (λ b f. ground arith))
        | inr v ↦ cc (rw (t, u, v) at e)
      ]
    ]
  ];
}

try_prune-IsCanonical_example :
    IsCanonical
      (try_prune (λ k. true) true tall 2)
      (try_prune (λ k. true) true tall 2).forks
      block_two
try_prune-IsCanonical_example =
    try_prune-IsCanonical (λ k. true) tall block_two tall-IsStored tall-IsIndexed (omega arith)
      (omega arith) refl tall-IsCanonical
