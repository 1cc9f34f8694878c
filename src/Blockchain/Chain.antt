-- ===== src/Blockchain/Chain.antt =====
-- blockchain/blockchain_impl.go: the record blockchainImpl with the contents of its datastore, and
-- the queries. A section of the datastore, which is the keys with one prefix, is a map; a value is
-- what its encoding decodes to. A read or a write in the datastore succeeds, with ErrNotFound where
-- there is no entry; only a commit may fail.
use teler.Base.{
  ℕ, ◌≡◌, refl, ap, Bool, true, false, Option, none, some, List, [], ◌∷◌, Map, empty, put, ◌==◌,
  if◌then◌else◌,
}

-- types.Transaction, types.Receipt and types.Block of go-ethereum, with the fields that are read.
pub record Transaction : Type 0 where
  pub hash : ℕ
  pub content : ℕ

pub record Receipt : Type 0 where
  pub tx_hash : ℕ
  pub content : ℕ

pub record Block : Type 0 where
  pub hash : ℕ
  pub parent_hash : ℕ
  pub number : ℕ
  pub transactions : List Transaction

-- encodeTransaction and encodeReceipt keep a value with its block and its index.
pub record Located (A : Type 0) : Type 0 where
  pub value : A
  pub block_hash : ℕ
  pub index : ℕ

pub data Error : Type 0 where
  -- datastore.ErrNotFound
  not_found : Error
  empty_fork not_canonical no_parent length_mismatch receipt_mismatch major_reorg : Error
  -- An error of the datastore's commit.
  commit_failed : Error
  -- A panic: an index out of range.
  panic : Error
  -- Not an error of the program: a loop of the model came to the end of its fuel.
  out_of_fuel : Error

-- What a method returns beside its error: the error, or a value where the error is nil.
pub data Result {ℓ} (V : Type ℓ) : Type ℓ where
  err : Error → Result V
  ok : V → Result V

module _ {ℓ κ} {V : Type ℓ} {W : Type κ} where
  -- `if err != nil { return err }` between two steps.
  infixl 5 ◌>>=◌
  abbrev pub ◌>>=◌ : Result V → (V → Result W) → Result W
  err why >>= next = err why
  ok val >>= next = next val

  -- A method that returned no error went through each of its steps.
  pub >>=-eq-ok :
      (first : Result V) (next : V → Result W) {out : W}
      → (first >>= next) ≡ ok out
      → (val : V) × (first ≡ ok val) × (next val ≡ ok out)
  >>=-eq-ok (err why) next returned = cc
  >>=-eq-ok (ok val) next returned = (val, refl, returned)

  pub >>=-ok :
      {first : Result V} (next : V → Result W) {val : V}
      → first ≡ ok val
      → (first >>= next) ≡ next val
  >>=-ok next step = ap (λ r. r >>= next) step

-- ds.Get
abbrev pub found {ℓ} : {A : Type ℓ} → Option A → Result A
found none = err not_found
found (some a) = ok a

-- blockchainImpl
pub record Chain : Type 0 where
  pub max_block_to_retain : ℕ
  pub pruning_frequency : ℕ
  pub tail : ℕ
  pub blocks : Map Block
  pub forks : Map (List ℕ)
  pub transactions : Map (Located Transaction)
  pub receipts : Map (Located Receipt)
  pub stored_tail : ℕ
  pub head : Option ℕ
  pub finalized : Option ℕ
  pub safe : Option ℕ

-- NewBlockchainImpl on an empty datastore.
unfoldable pub new_blockchain : ℕ → ℕ → Block → Chain
new_blockchain max_block_to_retain pruning_frequency genesis = record {
  max_block_to_retain = max_block_to_retain;
  pruning_frequency = pruning_frequency;
  tail = 0;
  blocks = put empty genesis.hash genesis;
  forks = put empty 0 (genesis.hash ∷ genesis.hash ∷ []);
  transactions = empty;
  receipts = empty;
  stored_tail = 0;
  head = some genesis.hash;
  finalized = none;
  safe = none;
}

-- HasBlock
unfoldable pub has_block : Chain → ℕ → Bool
has_block c hash = elim (c.blocks hash) [ none ↦ false | some blk ↦ true ]

-- GetBlockByHash
unfoldable pub get_block_by_hash : Chain → ℕ → Result Block
get_block_by_hash c hash = found (c.blocks hash)

-- getForks
unfoldable pub get_forks : Chain → ℕ → Result (List ℕ)
get_forks c height = found (c.forks height)

abbrev pub canonical_of : Chain → List ℕ → Result Block
canonical_of c [] = err empty_fork
canonical_of c (hash ∷ rest) = if hash == 0 then err not_canonical else found (c.blocks hash)

-- GetBlockByNumber
unfoldable pub get_block_by_number : Chain → ℕ → Result Block
unfolding get_forks
get_block_by_number c height = get_forks c height >>= canonical_of c

-- GetTransaction and GetReceipt: no entry is no error.
unfoldable pub get_transaction : Chain → ℕ → Option (Located Transaction)
get_transaction c hash = c.transactions hash

unfoldable pub get_receipt : Chain → ℕ → Option (Located Receipt)
get_receipt c hash = c.receipts hash

-- GetHead
unfoldable pub get_head : Chain → Result Block
unfolding get_block_by_hash
get_head c = found c.head >>= get_block_by_hash c

abbrev tagged : Chain → Option ℕ → Result (Option Block)
tagged c none = ok none
tagged c (some hash) = found (c.blocks hash) >>= λ blk. ok (some blk)

-- GetFinalized
unfoldable pub get_finalized : Chain → Result (Option Block)
get_finalized c = tagged c c.finalized

-- GetSafe
unfoldable pub get_safe : Chain → Result (Option Block)
get_safe c = tagged c c.safe

-- SetFinalized and SetSafe
unfoldable pub set_finalized : Chain → ℕ → Chain
set_finalized c hash = record c { finalized = some hash }

unfoldable pub set_safe : Chain → ℕ → Chain
set_safe c hash = record c { safe = some hash }

pub commit-ok :
    (commits : Bool) (c c' : Chain) → (if commits then ok c else err commit_failed) ≡ ok c' → c ≡ c'
commit-ok true c c' r = cc
commit-ok false c c' r = cc
