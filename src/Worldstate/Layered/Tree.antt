-- ===== src/Worldstate/Layered/Tree.antt =====
-- The tree of layers. The parent of a layer is where it stands in the tree, and its caches are left
-- to Layered/Reads. The layers are on the heap of one process and each method of the archive is one
-- step, so the state that a call changes is the datastore, the archive and the tree.
use teler.Base.{ℕ, ◌≡◌, Option, none, some, List, [], ◌∷◌, ◌++◌, ◌==◌, if◌then◌else◌}
use teler.Types.{LayerLog}
use teler.Statestore.{Store}
use teler.Statestore.Persist.{put_children, delete_children, delete_layer_log}
use teler.Worldstate.Archive.{Archive, deregister}

mutual
  -- layeredStateImpl
  pub data Tree : Type 0 where
    layer : LayerLog → Forest → Tree

  -- The children of a layer, in their order.
  pub data Forest : Type 0 where
    nil : Forest
    cons : Tree → Forest → Forest

-- What the archive gives out: the persisted state or a layer.
pub data Entry : Type 0 where
  persisted : Entry
  layered : LayerLog → Entry

-- GetRootHash, GetLayerLog and GetChildren of a layer.
abbrev pub get_layer_log : Tree → LayerLog
get_layer_log (Tree.layer log children) = log

abbrev pub get_root_hash : Tree → ℕ
get_root_hash t = (get_layer_log t).root_hash

abbrev pub get_children : Tree → Forest
get_children (Tree.layer log children) = children

-- What every layer shares.
pub record Shared : Type 0 where
  pub store : Store
  pub archive : Archive Entry

-- persistedStateImpl, with what hangs under it.
pub record World : Type 0 where
  pub shared : Shared
  pub height : ℕ
  pub root_hash : ℕ
  pub children : Forest

-- childrenHashes
abbrev pub root_hashes : Forest → List ℕ
root_hashes Forest.nil = []
root_hashes (Forest.cons t rest) = get_root_hash t ∷ root_hashes rest

abbrev pub append : Forest → Tree → Forest
append Forest.nil t = Forest.cons t Forest.nil
append (Forest.cons u rest) t = Forest.cons u (append rest t)

-- The end of Destruct: the batch, and the archive.
unfoldable pub destruct_self : Shared → LayerLog → Shared
destruct_self s log = record {
  store =
      delete_layer_log (delete_children s.store log.block_number log.root_hash) log.block_number
        log.root_hash;
  archive = deregister s.archive log.block_number log.root_hash;
}

-- Destruct: the children first.
unfoldable mutual
  unfolding destruct_self

  pub destruct : Shared → Tree → Shared
  destruct s (Tree.layer log children) = destruct_self (destruct_all s children) log

  pub destruct_all : Shared → Forest → Shared
  destruct_all s Forest.nil = s
  destruct_all s (Forest.cons t rest) = destruct_all (destruct s t) rest

-- The first child with a root hash.
unfoldable pub find_child : Forest → ℕ → Option Tree
find_child Forest.nil child_hash = none
find_child (Forest.cons t rest) child_hash =
    let later = find_child rest child_hash in
    if get_root_hash t == child_hash then some t else later

-- append(s.children[:index], s.children[index+1:]...) at the first child with the root hash
unfoldable pub remove_child : Forest → ℕ → Forest
remove_child Forest.nil child_hash = Forest.nil
remove_child (Forest.cons t rest) child_hash =
    let later = remove_child rest child_hash in
    if get_root_hash t == child_hash then rest else Forest.cons t later

-- The children of a state at a height, and the shared state, as AddChild and DestructChild leave them.
unfoldable pub add_child : Shared → ℕ → ℕ → Forest → Tree → Shared × Forest
add_child s height root_hash children child =
    let all = append children child in
    (record s { store = put_children s.store height root_hash (root_hashes all) }, all)

unfoldable pub destruct_child : Shared → ℕ → ℕ → Forest → ℕ → Shared × Forest
unfolding find_child remove_child
destruct_child s height root_hash children child_hash = elim (find_child children child_hash) [
  | none ↦ (s, children)
  | some child ↦
      let t = destruct s child in
      let rest = remove_child children child_hash in
      (record t { store = put_children t.store height root_hash (root_hashes rest) }, rest)
]

-- A tree among the children.
pub data IsChild (t : Tree) : Forest → Type 0 where
  first : (rest : Forest) → IsChild t (Forest.cons t rest)
  later : (u : Tree) (rest : Forest) → IsChild t rest → IsChild t (Forest.cons u rest)

-- The layer logs from a layer down to a child of the persisted state, the youngest first.
pub data IsChain : Forest → List LayerLog → Type 0 where
  stop : (f : Forest) → IsChain f []
  step :
      (f : Forest) (log : LayerLog) (children : Forest) (above : List LayerLog)
      → IsChild (Tree.layer log children) f
      → IsChain children above
      → IsChain f (above ++ log ∷ [])

-- The first children with the root hashes of a route, from the oldest: their layer logs, the youngest
-- first, and the children at the end.
pub data IsRoute : Forest → List ℕ → List LayerLog → Forest → Type 0 where
  here : (f : Forest) → IsRoute f [] [] f
  down :
      (f : Forest) (h : ℕ) (log : LayerLog) (children : Forest) (route : List ℕ)
      (above : List LayerLog) (g : Forest)
      → find_child f h ≡ some (Tree.layer log children)
      → IsRoute children route above g
      → IsRoute f (h ∷ route) (above ++ log ∷ []) g
