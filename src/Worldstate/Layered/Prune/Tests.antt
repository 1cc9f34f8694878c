-- ===== src/Worldstate/Layered/Prune/Tests.antt =====
-- Pruning a layer under another one, and the slice of a route.

use teler.Worldstate.Layered.Tree.{IsRoute}
use teler.Base.{
  ℕ, ◌≤◌, ◌<◌, ◌≡◌, refl, Option, none, some, List, [], ◌∷◌, ◌++◌, length, ◌⊎◌, Outcome, fail, done,
  arith,
}
use teler.Types.{LayerLog}
use teler.Worldstate.Samples.{sample_library}
use teler.Statestore.Persist.{
  persist_layer_log, persist_accounts, persist_codes, persist_account, persist_code,
  delete_children, delete_layer_log,
}
use teler.Worldstate.Archive.{Archive, new_archive, register, deregister, lookup, write, erase}
use teler.Worldstate.Layered.Samples.{world_of, orders, world_of-IsHandedOverWorld}
use teler.Worldstate.Layered.Tree.{find_child, Entry, World, IsChain}
use teler.Worldstate.Layered.Prune.{handle_prune, get_to_be_pruned, pruning_route}
use teler.Worldstate.Layered.Prune.Taken.{IsHandedOverWorld, IsSame}
use teler.Worldstate.Layered.Prune.Kept.{handle_prune-IsSame}
use teler.Worldstate.Layered.Prune.Slices.{get_to_be_pruned-bounds}

-- One layer on a route is too many.
abbrev sample_world : World
sample_world = world_of (register (new_archive 0 1) 6 60 Entry.persisted)

abbrev after_prune : Option (Outcome World World) → World
after_prune none = sample_world
after_prune (some (fail w)) = w
after_prune (some (done w)) = w

abbrev pruned_world : World
pruned_world = after_prune (handle_prune orders sample_world (70 ∷ []))

pruned : handle_prune orders sample_world (70 ∷ []) ≡ some (done pruned_world)
unfolding handle_prune get_to_be_pruned persist_layer_log persist_accounts persist_codes
    persist_account persist_code register new_archive deregister find_child delete_children
    delete_layer_log lookup write erase
pruned = refl

handle_prune-IsSame_example :
    (gone : List LayerLog) × (get_to_be_pruned sample_world.shared.archive (70 ∷ [])
      ≡ some (pruning_route gone []))
    × IsRoute sample_world.children (pruning_route gone []) gone pruned_world.children
    × IsHandedOverWorld sample_library orders pruned_world
    × ((chain : List LayerLog)
        → IsChain pruned_world.children chain
        → IsSame sample_library sample_world pruned_world chain gone)
handle_prune-IsSame_example =
    handle_prune-IsSame sample_library orders sample_world pruned_world (70 ∷ [])
      (world_of-IsHandedOverWorld sample_world.shared.archive) pruned

abbrev small_archive : Archive Entry
small_archive = new_archive 1 1

get_to_be_pruned-bounds_example :
    (taken rest : List ℕ) × (get_to_be_pruned small_archive (70 ∷ 80 ∷ []) ≡ some taken)
    × ((70 ∷ 80 ∷ []) ≡ taken ++ rest)
    × (((length {A = ℕ} (70 ∷ 80 ∷ []) ≤ small_archive.max_layer_to_retain) × (length taken ≡ 0))
        ⊎ ((small_archive.max_layer_to_retain < length {A = ℕ} (70 ∷ 80 ∷ []))
            × (length taken ≡ small_archive.pruning_frequency)))
unfolding register new_archive
get_to_be_pruned-bounds_example = get_to_be_pruned-bounds small_archive (70 ∷ 80 ∷ []) (omega arith)
