-- ===== src/Worldstate/Layered/Commit/Kept.antt =====
-- What the layers answer after a commit.
use teler.Worldstate.Layered.Commit.Routes.{
  IsRoute-IsChain, IsRoute-pruning_route, IsRoute-rest, graft-IsRoute, get_to_be_pruned-prefix,
}
use teler.Worldstate.Layered.Tree.{IsRoute, find_child}
use teler.Worldstate.Layered.Prune.{get_to_be_pruned}
use teler.Worldstate.Layered.Commit.{children_at}
use teler.Worldstate.Archive.{register}
use teler.Base.{none}
use teler.Base.{
  ℕ, ◌≡◌, sym, ap, ◌∙◌, subst, Bool, true, false, Option, some, List, [], ◌∷◌, ◌++◌, ◌==◌, ◌⊎◌, inl,
  inr, some-inj, arith, Outcome, fail, done, not, Option-cases, if◌then◌else◌,
}
use teler.Types.{Library, LayerLog}
use teler.Statestore.{Store, get_account_value, get_storage_by_version, get_layer_log, get_children}
use teler.Statestore.Persist.{put_children, put_layer_log}
use teler.Statestore.Accounts.{IsHandedOver}
use teler.Worldstate.Archive.{has}
use teler.Worldstate.Committed.{Committed}
use teler.Worldstate.Layered.Tree.{Tree, Forest, World, IsChain, add_child}
use teler.Worldstate.Layered.Prune.{Orders, pruning_route}
use teler.Worldstate.Layered.{answer}
use teler.Worldstate.Layered.Prune.Taken.{
  account_at, slot_at, accounts_of, slots_of, IsVisited, IsHandedOverWorld, done-inj,
}
use teler.Worldstate.Layered.Prune.Kept.{handle_prune-IsSame}
use teler.Worldstate.Layered.Restart.{
  new_layered_world_state, register_tree, depth, IsStored, IsStoredForest, load-IsStored,
}
use teler.Worldstate.Layered.Commit.{
  Refusal, graft, parents, layer_log_of, added_to, add_layer, pruned_after, commit,
}
use teler.Worldstate.Layered.Commit.Grafts.{graft-IsChain}

abbrev held : World → LayerLog → Store
held w log = put_layer_log (put_children w.shared.store log.block_number log.root_hash []) log

-- The new layer is read back from what was put.
new_layer :
    (w : World) (log : LayerLog)
    → new_layered_world_state 1 (held w log) log.block_number w.shared.archive log.root_hash
      ≡ some (
        register_tree w.shared.archive log.block_number (Tree.layer log Forest.nil),
        Tree.layer log Forest.nil,
      )
unfolding put_layer_log put_children get_layer_log get_children depth
new_layer w log =
    load-IsStored (held w log) 1 log.block_number w.shared.archive (Tree.layer log Forest.nil)
      (IsStored.layer log.block_number log Forest.nil (ground arith) (ground arith)
        (IsStoredForest.nil _))
      (omega arith)

-- The layer hangs in the tree, and the persisted state answers as before.
add_layer-same :
    (lib : Library) (w w' : World) (route : List ℕ) (log : LayerLog)
    → add_layer w route log ≡ some w'
    → (w'.children ≡ graft w.children route (Tree.layer log Forest.nil))
      × (get_account_value lib w'.shared.store ≡ get_account_value lib w.shared.store)
      × ((addr version : ℕ)
          → get_storage_by_version w'.shared.store addr version
            ≡ get_storage_by_version w.shared.store addr version)
      × ((r : List ℕ) → get_to_be_pruned w'.shared.archive r ≡ get_to_be_pruned w.shared.archive r)
unfolding add_layer add_child put_layer_log put_children get_account_value get_storage_by_version
    get_to_be_pruned register_tree register
add_layer-same lib w w' route log r =
    let whole =
      some-inj (subst (λ o. added_to w route (held w log) o ≡ some w') (new_layer w log) r) in
    (
      ap (λ u. u.children) (sym whole),
      ap (λ u. get_account_value lib u.shared.store) (sym whole),
      λ a v. ap (λ u. get_storage_by_version u.shared.store a v) (sym whole),
      λ r. ap (λ u. get_to_be_pruned u.shared.archive r) (sym whole),
    )

module _ (lib : Library) (orders : Orders) where
  -- A layer over those below it, which was handed over and is visited.
  abbrev IsReady : Store → List LayerLog → Type 0
  IsReady store [] = Unit {0}
  IsReady store (log ∷ below) =
      IsHandedOver lib (account_at lib store below) log.updated_accounts × IsVisited orders log

  add_layer-IsHandedOverWorld :
      (w w' : World) (route : List ℕ) (log : LayerLog)
      → add_layer w route log ≡ some w'
      → IsHandedOverWorld lib orders w
      → IsReady w.shared.store (log ∷ parents w.children route)
      → IsHandedOverWorld lib orders w'
  add_layer-IsHandedOverWorld w w' route log r handed ready top below at =
      let (grafted, accounts, slots, limits) = add_layer-same lib w w' route log r in
      let was : IsReady w.shared.store (top ∷ below) =
        elim (graft-IsChain route w.children w'.children log (top ∷ below) at grafted) [
          | inl old ↦ handed top below old
          | inr new ↦ subst (IsReady w.shared.store) (sym new) ready
        ] in
      (
        subst (λ b. IsHandedOver lib (answer b (accounts_of below)) top.updated_accounts)
            (sym accounts) was.0,
        was.1,
      )

not_done : {A B : Type 0} {x : A} {y : B} → ◌≡◌ {A = Outcome A B} (fail x) (done y) → ⊥
not_done e = cc

guard-passed :
    {A B : Type 0} (b : Bool) (why : A) (rest : Outcome A B) (r : B)
    → (if b then fail why else rest) ≡ done r
    → rest ≡ done r
guard-passed true why rest r e = absurd (not_done e)
guard-passed false why rest r e = e

-- A commit that is not refused has passed the guards.
commit-passed :
    (lib : Library) (orders : Orders) (w : World) (route : List ℕ) (s : Committed)
    (block root_hash : ℕ) (r : Option (Outcome World World))
    → commit lib orders w route s block root_hash ≡ done r
    → let log = layer_log_of lib s block root_hash in
      pruned_after orders (log ∷ parents w.children route) (add_layer w route log) ≡ done r
unfolding commit
commit-passed lib orders w route s block root_hash r is =
    guard-passed (has w.shared.archive block root_hash) Refusal.already_existed _ r (
      guard-passed (not (block == s.new_height)) Refusal.height_mismatch _ r
        (guard-passed s.committed Refusal.already_committed _ r is))

-- A chain after the commit and the layers that were pruned below it, as they stood before it.
abbrev pub IsCommitted :
    Library → World → World → List LayerLog → List LayerLog → List LayerLog → Type 0
IsCommitted lib w w' committed chain pruned =
    (IsChain w.children (chain ++ pruned) ⊎ (chain ++ pruned ≡ committed))
    × ((addr : ℕ)
        → account_at lib w'.shared.store chain addr
          ≡ account_at lib w.shared.store (chain ++ pruned) addr)
    × ((addr version key : ℕ)
        → slot_at w'.shared.store chain addr version key
          ≡ slot_at w.shared.store (chain ++ pruned) addr version key)

-- What a commit leaves: the new layer over its parents, less the oldest layers, as many as HandlePrune
-- was to prune, hangs in the tree, and each layer that stays answers as before.
abbrev pub IsCommitOf : Library → Orders → World → World → List LayerLog → Type 0
IsCommitOf lib orders w w' committed =
    IsHandedOverWorld lib orders w'
    × (kept : List LayerLog) × (pruned : List LayerLog) × (kept ++ pruned ≡ committed)
    × IsChain w'.children kept
    × (get_to_be_pruned w.shared.archive (pruning_route committed [])
        ≡ some (pruning_route pruned []))
    × ((chain : List LayerLog)
        → IsChain w'.children chain
        → IsCommitted lib w w' committed chain pruned)

-- A commit that is not refused, and whose pruning comes to its end, on layers that were handed over,
-- under a layer that the route leads to and that has no child with the new root hash, and of a block
-- whose accounts may be handed over to its parent and are all visited. The new layer over its parents
-- is a chain of the tree now, less the layers at the end of it that were pruned, which have the root
-- hashes that HandlePrune was to prune, none of them included. Each chain of layers in the tree, with
-- those that were pruned below it, is a chain of before or this one, and answers for each account and
-- each slot what that answered over the persisted state of before. The layers that stay were handed
-- over.
pub commit-IsCommitted :
    (lib : Library) (orders : Orders) (w w' : World) (route : List ℕ) (s : Committed)
    (block root_hash : ℕ)
    → IsHandedOverWorld lib orders w
    → IsRoute w.children route (parents w.children route) (children_at w.children route)
    → find_child (children_at w.children route) root_hash ≡ none
    → IsHandedOver lib
        (account_at lib w.shared.store (parents w.children route))
        s.committed_accounts
    → IsVisited orders (layer_log_of lib s block root_hash)
    → commit lib orders w route s block root_hash ≡ done (some (done w'))
    → IsCommitOf lib orders w w' (layer_log_of lib s block root_hash ∷ parents w.children route)
commit-IsCommitted lib orders w w' route s block root_hash handed led fresh ran visited r =
    let log = layer_log_of lib s block root_hash in
    let committed = log ∷ parents w.children route in
    let passed = commit-passed lib orders w route s block root_hash (some (done w')) r in
    elim (Option-cases (add_layer w route log)) [
      | inl missing ↦ absurd (
          not_done
            (subst (λ o. pruned_after orders committed o ≡ done (some (done w'))) missing passed))
      | inr (u, added) ↦
          let pruning =
            done-inj
              (subst (λ o. pruned_after orders committed o ≡ done (some (done w'))) added passed) in
          let (grafted, accounts, slots, limits) = add_layer-same lib w u route log added in
          let ready =
            add_layer-IsHandedOverWorld lib orders w u route log added handed (ran, visited) in
          let whole : IsRoute u.children (route ++ root_hash ∷ []) committed Forest.nil =
            subst (λ f. IsRoute f (route ++ root_hash ∷ []) committed Forest.nil) (sym grafted)
              (graft-IsRoute w.children (children_at w.children route) route
                (parents w.children route) log led fresh) in
          let (pruned, taken, gone, handed', same) =
            handle_prune-IsSame lib orders u w' (pruning_route committed []) ready pruning in
          let (left, split) =
            get_to_be_pruned-prefix u.shared.archive (pruning_route committed [])
              (pruning_route pruned []) taken in
          let (kept, stays, all) =
            IsRoute-rest u.children Forest.nil w'.children (pruning_route pruned []) left committed
              pruned gone (route ++ root_hash ∷ []) whole
              (sym (
                  IsRoute-pruning_route u.children Forest.nil (route ++ root_hash ∷ []) committed
                    whole)
                ∙ split) in
          (
            handed',
            kept,
            pruned,
            all,
            IsRoute-IsChain w'.children Forest.nil left kept stays,
            sym (limits (pruning_route committed [])) ∙ taken,
            λ chain at.
                let (was, kept_accounts, kept_slots) = same chain at in
                (
                  graft-IsChain route w.children u.children log (chain ++ pruned) was grafted,
                  λ a.
                      kept_accounts a
                      ∙ ap (λ b. answer b (accounts_of (chain ++ pruned)) a) accounts,
                  λ a v k.
                      kept_slots a v k
                      ∙ ap (λ b. answer b (slots_of (chain ++ pruned) a v) k) (slots a v),
                ),
          )
    ]
