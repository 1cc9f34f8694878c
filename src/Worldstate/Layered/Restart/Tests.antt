-- ===== src/Worldstate/Layered/Restart/Tests.antt =====
-- A start on a datastore with a layer over the persisted state.
use teler.Base.{◌≤◌, ◌≡◌, refl, some, [], ◌∷◌, incr64, arith}
use teler.Statestore.{Store, get_persisted_height, get_children, get_layer_log}
use teler.Statestore.Persist.{put_children, put_layer_log}
use teler.Statestore.Samples.{before, sample_log}
use teler.Worldstate.Archive.{new_archive, register}
use teler.Worldstate.Layered.Tree.{Tree, Forest, Entry}
use teler.Worldstate.Layered.Restart.{
  new_persisted_world_state, register_all, depth_all, IsStored, IsStoredForest,
  new_persisted_world_state-IsStored,
}

abbrev held : Store
held = put_children (put_children (put_layer_log before sample_log) 7 70 []) 6 60 (70 ∷ [])

abbrev one_layer : Forest
one_layer = Forest.cons (Tree.layer sample_log Forest.nil) Forest.nil

one_layer-IsStored : IsStoredForest held 7 one_layer
unfolding put_children put_layer_log get_layer_log get_children
one_layer-IsStored =
    IsStoredForest.cons 7 (Tree.layer sample_log Forest.nil) Forest.nil
      (IsStored.layer 7 sample_log Forest.nil refl refl (IsStoredForest.nil 8))
      (IsStoredForest.nil 7)

one_layer-depth : depth_all one_layer ≤ 1
unfolding depth_all
one_layer-depth = omega arith

new_persisted_world_state-IsStored_example :
    new_persisted_world_state 1 held (new_archive 1 1)
    ≡ some (record {
      shared = record {
        store = held;
        archive =
            register_all (register (new_archive 1 1) 6 60 Entry.persisted) (incr64 6) one_layer;
      };
      height = 6;
      root_hash = 60;
      children = one_layer;
    })
unfolding put_children put_layer_log get_persisted_height get_children
new_persisted_world_state-IsStored_example =
    new_persisted_world_state-IsStored held 1 6 60 (new_archive 1 1) one_layer refl refl
      one_layer-IsStored one_layer-depth
