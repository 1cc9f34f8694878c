-- ===== src/Worldstate/Layered/Prune.antt =====
-- worldstate/persistedstate_impl.go: HandlePrune, with which the persisted state takes over the layers
-- of the oldest blocks. The order in which Go visits the maps of a layer log is a parameter.
pub mod Frames
pub mod Taken
pub mod Kept
pub mod Slices
mod Tests
use teler.Base.{
  ℕ, zero, suc, ◌+◌, ◌≤◌, Bool, true, false, Option, none, some, List, [], ◌∷◌, ◌==◌, leb,
  if◌then◌else◌, incr64, length, not, Outcome, fail, done, for_each,
}
use teler.Types.{LayerLog}
use teler.Statestore.{Store}
use teler.Statestore.Persist.{persist_layer_log, delete_children, delete_layer_log}
use teler.Worldstate.Archive.{Archive, register, deregister}
use teler.Worldstate.Layered.Tree.{
  Tree, Forest, Entry, Shared, World, get_layer_log, get_root_hash, get_children, destruct,
  find_child,
}

-- The orders of UpdatedAccounts and of UpdatedCodeCount.
pub record Orders : Type 0 where
  pub accounts : LayerLog → List ℕ
  pub codes : LayerLog → List ℕ

-- HandlePrune of the layers from the youngest down: the route that reaches the persisted state.
unfoldable pub pruning_route : List LayerLog → List ℕ → List ℕ
pruning_route [] route = route
pruning_route (log ∷ below) route = pruning_route below (log.root_hash ∷ route)

-- l[0:n]; `none` where n is beyond the length, where Go looks at the capacity.
abbrev pub slice : List ℕ → ℕ → Option (List ℕ)
slice l zero = some []
slice [] (suc n) = none
slice (x ∷ l) (suc n) = elim (slice l n) [ none ↦ none | some taken ↦ some (x ∷ taken) ]

-- getToBePruned. The number of layers to retain is taken to fit in an int, as it does where it is
-- configured: at most 512.
unfoldable pub get_to_be_pruned : Archive Entry → List ℕ → Option (List ℕ)
get_to_be_pruned archive route =
    if leb (length route) archive.max_layer_to_retain
    then some []
    else slice route archive.pruning_frequency

-- 2.1: the children but for the one that is pruned
unfoldable pub destruct_others : Shared → Forest → ℕ → Shared
destruct_others s Forest.nil child_hash = s
destruct_others s (Forest.cons c rest) child_hash =
    destruct_others (if get_root_hash c == child_hash then s else destruct s c) rest child_hash

-- The persisted state with the child's data, once the batch is committed.
abbrev pub take_over : World → Shared → Tree → Store → World
take_over w s child store =
    let log = get_layer_log child in
    record {
      shared = record {
        store = store;
        archive = register s.archive log.block_number log.root_hash Entry.persisted;
      };
      height = log.block_number;
      root_hash = log.root_hash;
      children = get_children child;
    }

-- The batch failed: what has been done before stays. A panic of the batch ends the process.
abbrev pub settle : {E : Type 0} → World → Shared → Tree → Outcome E Store → Outcome World World
settle w s child (fail why) = fail (record w { shared = s })
settle w s child (done store) = done (take_over w s child store)

-- pruneOne, from the child that was found.
unfoldable pub prune_child : Orders → World → Tree → Outcome World World
unfolding destruct_others
prune_child orders w child =
    let log = get_layer_log child in
    let deregistered = record w.shared {
      archive = deregister w.shared.archive w.height w.root_hash;
    } in
    let s = destruct_others deregistered w.children log.root_hash in
    settle w s child (
      persist_layer_log s.store
        (delete_layer_log (delete_children s.store w.height w.root_hash) (incr64 w.height)
          log.root_hash)
        log (orders.accounts log) (orders.codes log))

abbrev pub prune_found : Orders → World → Option Tree → Outcome World World
prune_found orders w none = fail w
prune_found orders w (some child) = prune_child orders w child

-- pruneOne; it fails with the state that it leaves.
unfoldable pub prune_one : Orders → World → ℕ → Outcome World World
unfolding prune_child
prune_one orders w child_hash = prune_found orders w (find_child w.children child_hash)

abbrev pub prune_listed : Orders → World → Option (List ℕ) → Option (Outcome World World)
prune_listed orders w none = none
prune_listed orders w (some to_prune) = some (for_each (prune_one orders) to_prune w)

-- HandlePrune, which ends at the first failure; `none` is a slice out of bounds.
unfoldable pub handle_prune : Orders → World → List ℕ → Option (Outcome World World)
unfolding prune_one
handle_prune orders w route = prune_listed orders w (get_to_be_pruned w.shared.archive route)
