-- ===== src/Worldstate/Layered/Commit.antt =====
-- worldstate/tempcommitted_impl.go, Commit: the changes of a block become a layer under the layer of
-- its parent, and the oldest layers are pruned. The parent is given by the root hashes that lead to it
-- from the persisted state.
pub mod Grafts
pub mod Routes
pub mod Kept
pub mod Block
mod Tests
mod BlockTests
use teler.Base.{
  ℕ, Bool, true, false, Option, none, some, List, [], ◌∷◌, ◌++◌, ◌==◌, if◌then◌else◌, not, Outcome,
  fail, done,
}
use teler.Types.{Library, LayerLog}
use teler.Statestore.{Store}
use teler.Statestore.Persist.{put_children, put_layer_log}
use teler.Worldstate.Archive.{Archive, has}
use teler.Worldstate.Committed.{Committed}
use teler.Worldstate.Layered.Tree.{Tree, Forest, Entry, Shared, World, append, add_child}
use teler.Worldstate.Layered.Prune.{Orders, pruning_route, handle_prune}
use teler.Worldstate.Layered.Restart.{new_layered_world_state}

pub data Refusal : Type 0 where
  already_committed height_mismatch already_existed : Refusal
  -- an error of newLayeredWorldState
  no_layer : Refusal

-- The change of the children at the first child with a root hash.
unfoldable pub graft_at : Forest → ℕ → (Forest → Forest) → Forest
graft_at Forest.nil root_hash change = Forest.nil
graft_at (Forest.cons (Tree.layer log children) rest) root_hash change =
    let later = graft_at rest root_hash change in
    if log.root_hash == root_hash
    then Forest.cons (Tree.layer log (change children)) rest
    else Forest.cons (Tree.layer log children) later

-- s.children = append(s.children, child) of the layer that a route leads to.
unfoldable pub graft : Forest → List ℕ → Tree → Forest
unfolding graft_at
graft f [] t = append f t
graft f (root_hash ∷ route) t = graft_at f root_hash (λ children. graft children route t)

-- The first layer with a root hash.
unfoldable pub layer_at : Forest → ℕ → Option (LayerLog × Forest)
layer_at Forest.nil root_hash = none
layer_at (Forest.cons (Tree.layer log children) rest) root_hash =
    let later = layer_at rest root_hash in
    if log.root_hash == root_hash then some (log, children) else later

-- The layers that a route leads through, the youngest first, and the children at its end.
unfoldable pub parents : Forest → List ℕ → List LayerLog
unfolding layer_at
parents f [] = []
parents f (root_hash ∷ route) = elim (layer_at f root_hash) [
  | none ↦ []
  | some at ↦ parents at.1 route ++ at.0 ∷ []
]

unfoldable pub children_at : Forest → List ℕ → Forest
unfolding layer_at
children_at f [] = f
children_at f (root_hash ∷ route) = elim (layer_at f root_hash) [
  | none ↦ Forest.nil
  | some at ↦ children_at at.1 route
]

-- The layer log, with the trimmed counts: a count of zero is no entry.
abbrev pub layer_log_of : Library → Committed → ℕ → ℕ → LayerLog
layer_log_of lib s block root_hash = record {
  block_number = block;
  root_hash = root_hash;
  updated_accounts = s.committed_accounts;
  updated_code_count = λ h. if h == lib.empty_code_hash then 0 else s.committed_code_count h;
  code_preimage = s.code_preimage;
  updated_storage = s.committed_storage;
}

-- The height and the root hash of the parent.
abbrev pub parent_at : World → List LayerLog → ℕ × ℕ
parent_at w [] = (w.height, w.root_hash)
parent_at w (log ∷ below) = (log.block_number, log.root_hash)

-- The world with the layer that was read back, under the layer at the end of the route.
abbrev pub added_to : World → List ℕ → Store → Option (Archive Entry × Tree) → Option World
added_to w route held none = none
added_to w route held (some (archive, t)) =
    let at = parent_at w (parents w.children route) in
    let grown =
      add_child (record { store = held; archive = archive }) at.0 at.1
        (children_at w.children route) t in
    some (record w { shared = grown.0; children = graft w.children route t })

-- Put children, put layer log, add new layered state. The new layer has no children, so fuel for one
-- layer is enough.
unfoldable pub add_layer : World → List ℕ → LayerLog → Option World
unfolding graft parents children_at
add_layer w route log =
    let held = put_layer_log (put_children w.shared.store log.block_number log.root_hash []) log in
    added_to w route held
      (new_layered_world_state 1 held log.block_number w.shared.archive log.root_hash)

abbrev pub pruned_after :
    Orders → List LayerLog → Option World → Outcome Refusal (Option (Outcome World World))
pruned_after orders chain none = fail Refusal.no_layer
pruned_after orders chain (some w) = done (handle_prune orders w (pruning_route chain []))

-- Commit, with what HandlePrune gives: `none` is its panic, and a failure of it is only logged.
unfoldable pub commit :
    Library
    → Orders
    → World
    → List ℕ
    → Committed
    → ℕ
    → ℕ
    → Outcome Refusal (Option (Outcome World World))
unfolding add_layer
commit lib orders w route s block root_hash =
    if s.committed
    then fail Refusal.already_committed
    else if not (block == s.new_height)
    then fail Refusal.height_mismatch
    else if has w.shared.archive block root_hash
    then fail Refusal.already_existed
    else (let log = layer_log_of lib s block root_hash in
        pruned_after orders (log ∷ parents w.children route) (add_layer w route log))
