-- ===== src/Blockchain/Add.antt =====
-- blockchain/blockchain_impl.go: AddBlock.
pub mod Lookup
pub mod Keeps
use teler.Base.{
  ℕ, ◌+◌, ◌≡◌, Bool, true, false, Option, none, some, List, [], ◌∷◌, ◌++◌, Map, put, ◌==◌, ltb,
  if◌then◌else◌, length,
}
use teler.Blockchain.Chain.{
  Transaction, Receipt, Block, Located, Error, no_parent, length_mismatch, receipt_mismatch,
  commit_failed, panic, Result, ok, err, ◌>>=◌, Chain, has_block,
}

-- The loop over the transactions, which compares each with the receipt at its index.
unfoldable pub match_receipts : List Transaction → List Receipt → Result (Unit {0})
match_receipts [] rs = ok tt
match_receipts (t ∷ ts) [] = err panic
match_receipts (t ∷ ts) (r ∷ rs) =
    if r.tx_hash == t.hash then match_receipts ts rs else err receipt_mismatch

-- forks, with the new hash at the end; a height without forks begins with no canonical block.
abbrev pub extended : Option (List ℕ) → ℕ → List ℕ
extended none hash = 0 ∷ hash ∷ []
extended (some forks) hash = forks ++ hash ∷ []

-- The loops that keep the transactions, and the receipts, under their hashes with the block and the
-- index.
unfoldable pub put_located :
    {A : Type 0} → (A → ℕ) → Map (Located A) → ℕ → ℕ → List A → Map (Located A)
put_located key m hash index [] = m
put_located key m hash index (x ∷ xs) =
    put_located key (put m (key x) (record { value = x; block_hash = hash; index = index })) hash
      (index + 1) xs

-- What the transaction of AddBlock writes.
unfoldable pub with_block : Chain → Block → List Receipt → Chain
unfolding put_located
with_block c blk receipts = record c {
  blocks = put c.blocks blk.hash blk;
  forks = put c.forks blk.number (extended (c.forks blk.number) blk.hash);
  transactions = put_located (λ t. t.hash) c.transactions blk.hash 0 blk.transactions;
  receipts = put_located (λ r. r.tx_hash) c.receipts blk.hash 0 receipts;
}

-- AddBlock; whether the datastore's commit goes through is an argument.
unfoldable pub add_block : Bool → Chain → Block → List Receipt → Result Chain
unfolding has_block match_receipts with_block
add_block commits c blk receipts =
    if ltb blk.number c.tail
    then ok c
    else if has_block c blk.hash
    then ok c
    else if has_block c blk.parent_hash
    then (if length blk.transactions == length receipts
        then (match_receipts blk.transactions receipts >>= λ _.
            if commits then ok (with_block c blk receipts) else err commit_failed)
        else err length_mismatch)
    else err no_parent
