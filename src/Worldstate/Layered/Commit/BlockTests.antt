-- ===== src/Worldstate/Layered/Commit/BlockTests.antt =====
-- The theorem on the commit of a block at a concrete one.
use mathlib.Core.List.{Memᴰ}
use teler.Worldstate.Layered.Tree.{Forest, IsRoute, find_child}
use teler.Worldstate.Layered.Commit.{children_at}
use teler.Base.{
  ℕ, ◌≡◌, refl, sym, ap, ◌∙◌, subst, true, Option, none, some, [], ◌∷◌, ◌==◌, ==_iff, Map, put,
  empty, some-inj, if-true, if-false, Bool-cases, inl, inr, Outcome, done, fail, arith,
}
use teler.Types.{AccountValue}
use teler.Statestore.{get_account_value}
use teler.Statestore.Samples.{sample_log, before, put-entry}
use teler.Worldstate.Samples.{sample_library, sample_layer}
use teler.Worldstate.Layer.{Layer}
use teler.Worldstate.Archive.{Archive, new_archive, register}
use teler.Worldstate.Account.Object.{Account, new_mutable_account, is_empty}
use teler.Worldstate.Account.Setters.{set_state}
use teler.Worldstate.Account.Finalized.{get_finalized}
use teler.Worldstate.Account.Reverts.{IsSound}
use teler.Worldstate.Account.Lifecycle.{Reach, here, next, state}
use teler.Worldstate.Committed.{
  new_temp_committed, get_mutable_account, account_value, apply_changes, apply_accounts, apply_one,
}
use teler.Worldstate.Committed.HandedOver.{IsSettled, IsHandedOverBlock}
use teler.Worldstate.Mutable.State.{State, new_mutable_world_state}
use teler.Worldstate.Mutable.Snapshots.{delete_empty, finalise_accounts, finalise}
use teler.Worldstate.Layered.{answer}
use teler.Worldstate.Layered.Tree.{Entry, World, IsChain}
use teler.Worldstate.Layered.Prune.Taken.{account_at, IsVisited}
use teler.Worldstate.Layered.Samples.{sample_world, orders, world_of-IsHandedOverWorld}
use teler.Worldstate.Layered.Commit.{Refusal, parents, layer_log_of, commit}
use teler.Worldstate.Layered.Commit.Kept.{IsCommitOf}
use teler.Worldstate.Layered.Commit.Block.{
  intermediate_root, IsLoaded, commit_state, commit_state-IsCommitted,
}

abbrev block_layer : Layer
block_layer = record sample_layer {
  get_account_value = account_at sample_library before (parents sample_world.children (70 ∷ []));
}

abbrev started : State
started = new_mutable_world_state block_layer 8

abbrev loaded : Account
loaded = get_mutable_account started.parent 3

abbrev one_dirty : Map Account
one_dirty = put empty 3 (set_state loaded 1 2).0

-- A transaction has set a slot of the account at 3.
abbrev ran : State
ran = record started { dirty_accounts = one_dirty }

abbrev Result : Type 0
Result = Option (State × Outcome Refusal (Option (Outcome World World)))

abbrev result : Result
result = commit_state sample_library orders sample_world (70 ∷ []) ran (3 ∷ []) (3 ∷ []) true 8 80

abbrev state_of : Result → State
state_of none = ran
state_of (some p) = p.0

abbrev world_in : Outcome Refusal (Option (Outcome World World)) → World
world_in (fail why) = sample_world
world_in (done none) = sample_world
world_in (done (some (fail w))) = w
world_in (done (some (done w))) = w

abbrev after_commit : Result → World
after_commit none = sample_world
after_commit (some p) = world_in p.1

committed : result ≡ some (state_of result, done (some (done (after_commit result))))
unfolding commit_state is_empty set_state get_mutable_account new_mutable_account
    new_mutable_world_state new_temp_committed answer apply_changes teler.Worldstate.Archive.has
    register new_archive teler.Worldstate.Layered.Restart.new_layered_world_state
    teler.Statestore.get_layer_log teler.Statestore.Persist.put_layer_log
    teler.Statestore.get_children teler.Statestore.Persist.put_children
    teler.Worldstate.Layered.Prune.handle_prune teler.Statestore.Persist.collect_old
    teler.Statestore.Persist.committed_version teler.Statestore.Persist.delete_children
    teler.Statestore.Persist.delete_layer_log teler.Statestore.Persist.notify_gc
    teler.Statestore.Persist.persist_account teler.Statestore.Persist.persist_accounts
    teler.Statestore.Persist.persist_code teler.Statestore.Persist.persist_codes
    teler.Statestore.Persist.persist_layer_log teler.Statestore.Persist.persist_storage
    teler.Statestore.Persist.write_account get_finalized
    teler.Worldstate.Account.Object.interpret_version teler.Worldstate.Account.Setters.self_destruct
    teler.Worldstate.Account.Setters.touch teler.Worldstate.Archive.deregister
    teler.Worldstate.Archive.erase teler.Worldstate.Archive.lookup teler.Worldstate.Archive.write
    account_value apply_accounts apply_one teler.Worldstate.Layered.Commit.Block.intermediate_root
    teler.Worldstate.Layered.Commit.add_layer teler.Worldstate.Layered.Commit.children_at commit
    teler.Worldstate.Layered.Commit.graft teler.Worldstate.Layered.Commit.graft_at
    teler.Worldstate.Layered.Commit.layer_at parents teler.Worldstate.Layered.Prune.destruct_others
    teler.Worldstate.Layered.Prune.get_to_be_pruned teler.Worldstate.Layered.Prune.prune_child
    teler.Worldstate.Layered.Prune.prune_one teler.Worldstate.Layered.Prune.pruning_route
    teler.Worldstate.Layered.Restart.each_child teler.Worldstate.Layered.Tree.add_child
    teler.Worldstate.Layered.Tree.destruct teler.Worldstate.Layered.Tree.destruct_self
    teler.Worldstate.Layered.Tree.find_child delete_empty finalise finalise_accounts
committed = refl

block_layer-IsSettled :
    (a : ℕ)
    → IsSettled sample_library (block_layer.get_account_value a) (block_layer.get_account_value a)
unfolding get_account_value parents answer
block_layer-IsSettled a = record {
  settled = ground arith;
  deleted = ground arith;
  absent = λ e. refl;
}

ran-IsHandedOverBlock : IsHandedOverBlock sample_library ran.parent
unfolding new_mutable_world_state new_temp_committed
ran-IsHandedOverBlock = record { under = block_layer-IsSettled; over = λ a v e. cc }

loaded-IsSound : IsSound loaded
unfolding new_mutable_world_state new_temp_committed get_mutable_account new_mutable_account
    account_value parents answer get_account_value
loaded-IsSound = record {
  room = omega arith;
  bare = λ e. absurd (omega (arith, e));
  clean = λ h key. cc;
}

ran-IsLoaded : IsLoaded sample_library ran.parent one_dirty
ran-IsLoaded addr a e = elim (Bool-cases (addr == 3)) [
  | inl t ↦
      subst
        (λ b.
          IsSound (get_mutable_account ran.parent b)
          × Reach sample_library (get_mutable_account ran.parent b) a)
        (sym ((==_iff addr 3).0 t))
        (
          loaded-IsSound,
          subst (Reach sample_library loaded) (some-inj (if-true _ _ _ t e))
              (next here (state 1 2)),
        )
  | inr t ↦ cc (if-false _ _ _ t e)
]

-- What the account at 3 is handed over with.
abbrev final : AccountValue
final = (get_finalized sample_library (set_state loaded 1 2).0).final_state

accounts-are : (state_of result).parent.committed_accounts ≡ put empty 3 final
unfolding commit_state intermediate_root finalise finalise_accounts delete_empty is_empty set_state
    get_mutable_account new_mutable_account new_mutable_world_state new_temp_committed answer
    apply_changes apply_accounts apply_one account_value get_finalized parents
accounts-are = refl

result-IsVisited : IsVisited orders (layer_log_of sample_library (state_of result).parent 8 80)
result-IsVisited a v e = Memᴰ.head (put-entry final v a (ap (λ m. m a) (sym accounts-are) ∙ e)).0

commit_state-IsCommitted_example :
    IsCommitOf sample_library orders sample_world (after_commit result) (
      layer_log_of sample_library (state_of result).parent 8 80
      ∷ parents sample_world.children (70 ∷ []))
unfolding new_mutable_world_state new_temp_committed find_child parents children_at
commit_state-IsCommitted_example =
    commit_state-IsCommitted sample_library orders sample_world (after_commit result) (70 ∷ []) ran
      (state_of result) (3 ∷ []) (3 ∷ []) true 8 80
      (world_of-IsHandedOverWorld sample_world.shared.archive)
      (IsRoute.down sample_world.children 70 sample_log Forest.nil [] [] Forest.nil refl
        (IsRoute.here Forest.nil))
      refl refl ran-IsHandedOverBlock ran-IsLoaded result-IsVisited committed
