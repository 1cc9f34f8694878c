-- ===== src/Worldstate/Layered/Commit/Tests.antt =====
-- The theorem on a commit at a concrete block.
use teler.Worldstate.Layered.Tree.{Forest, IsRoute}
use teler.Base.{◌≡◌, refl, ap, Option, none, some, [], ◌∷◌, Outcome, fail, done, arith}
use teler.Types.{LayerLog}
use teler.Worldstate.Samples.{sample_library}
use teler.Statestore.{get_account_value}
use teler.Statestore.Accounts.{IsHandedOver}
use teler.Statestore.Persist.{
  persist_layer_log, persist_accounts, persist_codes, persist_account, persist_code,
  delete_children, delete_layer_log,
}
use teler.Statestore.Samples.{sample_log, before}
use teler.Worldstate.Archive.{has, new_archive, register, deregister, lookup, write, erase}
use teler.Worldstate.Layered.Tree.{find_child, World}
use teler.Worldstate.Layered.Prune.{handle_prune, get_to_be_pruned, pruning_route}
use teler.Worldstate.Layered.Prune.Taken.{account_at}
use teler.Base.{put, empty}
use teler.Worldstate.Samples.{sample_layer}
use mathlib.Core.List.{Memᴰ}
use teler.Statestore.Samples.{account, put-entry}
use teler.Statestore.Persist.{put_children, put_layer_log}
use teler.Worldstate.Committed.{Committed, new_temp_committed}
use teler.Worldstate.Layered.Samples.{sample_world, orders, world_of-IsHandedOverWorld}
use teler.Worldstate.Layered.Tree.{add_child}
use teler.Worldstate.Layered.Restart.{new_layered_world_state, register_tree, each_child}
use teler.Worldstate.Layered.Commit.{
  Refusal, graft, children_at, parents, layer_log_of, add_layer, commit,
}
use teler.Worldstate.Layered.Commit.Kept.{IsCommitOf, commit-IsCommitted}

-- The block changes the account at 3.
abbrev changes : Committed
changes = record (new_temp_committed sample_layer 8) {
  committed_accounts = put empty 3 (account 7);
}

abbrev committed_log : LayerLog
committed_log = layer_log_of sample_library changes 8 80

abbrev after_commit : Outcome Refusal (Option (Outcome World World)) → World
after_commit (done (some (done w))) = w
after_commit (done (some (fail w))) = w
after_commit (done none) = sample_world
after_commit (fail why) = sample_world

abbrev committed_world : World
committed_world = after_commit (commit sample_library orders sample_world (70 ∷ []) changes 8 80)

committed :
    commit sample_library orders sample_world (70 ∷ []) changes 8 80
    ≡ done (some (done committed_world))
unfolding commit handle_prune get_to_be_pruned persist_layer_log persist_accounts persist_codes
    persist_account persist_code register new_archive deregister find_child delete_children
    delete_layer_log lookup write erase new_temp_committed put_layer_log put_children has add_layer
    add_child parents each_child children_at new_layered_world_state graft register_tree
    teler.Statestore.get_layer_log teler.Statestore.get_children pruning_route
committed = refl

changes-IsHandedOver :
    IsHandedOver sample_library
      (account_at sample_library before (parents sample_world.children (70 ∷ [])))
      changes.committed_accounts
changes-IsHandedOver = record {
  settled =
      λ a v e z. absurd (omega (arith, z, ap (λ u. u.version) (put-entry (account 7) v a e).1));
  deleted =
      λ a v e z. absurd (omega (arith, z, ap (λ u. u.version) (put-entry (account 7) v a e).1));
  absent =
      λ a v e z. absurd (omega (arith, z, ap (λ u. u.version) (put-entry (account 7) v a e).1));
}

commit-IsCommitted_example :
    IsCommitOf sample_library orders sample_world committed_world
      (committed_log ∷ parents sample_world.children (70 ∷ []))
unfolding find_child parents children_at
commit-IsCommitted_example =
    commit-IsCommitted sample_library orders sample_world committed_world (70 ∷ []) changes 8 80
      (world_of-IsHandedOverWorld sample_world.shared.archive)
      (IsRoute.down sample_world.children 70 sample_log Forest.nil [] [] Forest.nil refl
        (IsRoute.here Forest.nil))
      refl changes-IsHandedOver (λ a v e. Memᴰ.head (put-entry (account 7) v a e).0) committed
