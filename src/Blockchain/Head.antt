-- ===== src/Blockchain/Head.antt =====
-- blockchain/blockchain_impl.go: SetHead, and tryPrune, which it calls.
pub mod Canonical
pub mod Moves
pub mod Reachable
pub mod Pruned
pub mod Kept
pub mod PrunedCanonical
use teler.Base.{add64, ◌-◌}
use teler.Base.{
  ℕ, zero, suc, ◌+◌, ◌-◌, ◌^◌, ◌≡◌, Bool, true, false, Option, none, some, List, [], ◌∷◌, Map, put,
  delete, ◌==◌, ltb, leb, if◌then◌else◌, add64, sub64,
}
use teler.Blockchain.Chain.{
  Transaction, Receipt, Block, Located, Error, major_reorg, commit_failed, panic, out_of_fuel,
  Result, ok, err, ◌>>=◌, Chain, found, get_block_by_hash, get_forks,
}

-- forks[0] = hash
abbrev pub set_first : List ℕ → ℕ → Result (List ℕ)
set_first [] hash = err panic
set_first (x ∷ xs) hash = ok (hash ∷ xs)

-- Forks are read from the datastore and written into the transaction: `written` has the writes over
-- what the datastore holds.
unfoldable pub rewrite_first : Chain → Map (List ℕ) → ℕ → ℕ → Result (Map (List ℕ))
unfolding get_forks
rewrite_first c written height hash =
    get_forks c height >>= λ forks. set_first forks hash >>= λ new. ok (put written height new)

-- The loop that takes the canonical block away at `count` heights from `height` on.
unfoldable pub clear_canonical : Chain → Map (List ℕ) → ℕ → ℕ → Result (Map (List ℕ))
unfolding rewrite_first
clear_canonical c written height zero = ok written
clear_canonical c written height (suc count) =
    rewrite_first c written height 0 >>= λ w. clear_canonical c w (height + 1) count

abbrev pub first_of_forks : List ℕ → Result ℕ
first_of_forks [] = err panic
first_of_forks (x ∷ xs) = ok x

-- The loop that makes the ancestors canonical, down to one that is. At `height` stand the hash of
-- the ancestor and its block.
unfoldable pub set_ancestors : ℕ → Chain → Map (List ℕ) → ℕ → ℕ → Block → Result (Map (List ℕ))
unfolding get_forks rewrite_first get_block_by_hash
set_ancestors zero c written height hash blk = err out_of_fuel
set_ancestors (suc fuel) c written height hash blk = get_forks c height >>= λ forks.
    first_of_forks forks >>= λ first. elim (first == hash) [
      | true ↦ ok written
      | false ↦ rewrite_first c written height hash >>= λ w.
          get_block_by_hash c blk.parent_hash >>= λ grandparent.
          elim (ltb (sub64 height 1) c.tail) [
            | true ↦ err major_reorg
            | false ↦ set_ancestors fuel c w (sub64 height 1) blk.parent_hash grandparent
          ]
    ]

-- The transactions and the receipts of a block are deleted.
unfoldable pub delete_all : {V : Type 0} → Map V → List Transaction → Map V
delete_all m [] = m
delete_all m (t ∷ ts) = delete_all (delete m t.hash) ts

-- The loop over the forks of a height; `none` is a return with nothing committed. Blocks are read
-- from the datastore, so the deletions of the transaction are not seen.
unfoldable pub prune_forks : Chain → Chain → List ℕ → Option Chain
unfolding delete_all
prune_forks c written [] = some written
prune_forks c written (fork ∷ forks) = elim (c.blocks fork) [
  | none ↦ none
  | some blk ↦
      prune_forks c
        (record written {
          blocks = delete written.blocks fork;
          transactions = delete_all written.transactions blk.transactions;
          receipts = delete_all written.receipts blk.transactions;
        })
        forks
]

abbrev pub committed : Chain → Option Chain → ℕ → Bool → Chain
committed c none height commits = c
committed c (some written) height commits =
    if commits then record written { forks = delete written.forks height } else c

-- The body of the loop of tryPrune, at one height.
unfoldable pub prune_height : (ℕ → Bool) → Chain → ℕ → Chain
unfolding prune_forks
prune_height commits c height = elim (c.forks height) [
  | none ↦ c
  | some forks ↦ committed c (prune_forks c c forks) height (commits height)
]

-- The loop, over `count` heights from `height` on.
unfoldable pub prune_heights : (ℕ → Bool) → Chain → ℕ → ℕ → Chain
unfolding prune_height
prune_heights commits c height zero = c
prune_heights commits c height (suc count) =
    prune_heights commits (prune_height commits c height) (height + 1) count

-- The heights from the tail to a new tail, and the Put of the new tail, which may fail.
unfoldable pub prune_to : (ℕ → Bool) → Bool → Chain → ℕ → Chain
unfolding prune_heights
prune_to commits puts c new_tail =
    let pruned = prune_heights commits c c.tail (new_tail - c.tail) in
    if puts then record pruned { stored_tail = new_tail; tail = new_tail } else pruned

-- tryPrune; the arguments say which of the commits, one for each height, go through, and whether the
-- Put of the tail does.
unfoldable pub try_prune : (ℕ → Bool) → Bool → Chain → ℕ → Chain
unfolding prune_to
try_prune commits puts c height =
    if leb (sub64 height c.tail) c.max_block_to_retain
    then c
    else prune_to commits puts c (add64 c.tail c.pruning_frequency)

-- The forks that the transaction of SetHead writes.
unfoldable pub new_forks : Chain → Block → Block → Result (Map (List ℕ))
unfolding clear_canonical set_ancestors
new_forks c current blk =
    (if ltb blk.number current.number
      then clear_canonical c c.forks (blk.number + 1) (current.number - blk.number)
      else ok c.forks)
    >>= λ cleared. rewrite_first c cleared blk.number blk.hash >>= λ topped.
        get_block_by_hash c blk.parent_hash >>= λ parent. elim (ltb (sub64 blk.number 1) c.tail) [
          | true ↦ err major_reorg
          | false ↦
              set_ancestors (blk.number + 1) c topped (sub64 blk.number 1) blk.parent_hash parent
        ]

-- SetHead up to its commit.
unfoldable pub move_head : Bool → Chain → ℕ → Result Chain
unfolding new_forks
move_head commits c hash = get_block_by_hash c hash >>= λ blk. found c.head >>= λ head_hash.
    get_block_by_hash c head_hash >>= λ current. new_forks c current blk >>= λ forks.
    if commits then ok (record c { forks = forks; head = some hash }) else err commit_failed

-- SetHead
unfoldable pub set_head : Bool → (ℕ → Bool) → Bool → Chain → ℕ → Result Chain
unfolding move_head try_prune
set_head commits prune_commits puts c hash = get_block_by_hash c hash >>= λ blk.
    move_head commits c hash >>= λ moved. ok (try_prune prune_commits puts moved blk.number)
