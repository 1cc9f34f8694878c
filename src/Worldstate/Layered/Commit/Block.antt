-- ===== src/Worldstate/Layered/Commit/Block.antt =====
-- worldstate/mutablestate_impl.go: IntermediateRoot and Commit, with which the state of a block becomes
-- a layer, and what the layers answer then.
use teler.Base.{
  ℕ, ◌≡◌, refl, sym, ap, ◌∙◌, subst, Bool, Option, none, some, List, [], ◌∷◌, ◌==◌, ==_iff, Map,
  put, ◌>>=◌, ◌&&◌, some-inj, if-true, if-false, Bool-cases, Option-cases, inl, inr, Outcome, done,
  arith,
}
use teler.Types.{Library}
use teler.Statestore.Accounts.{IsHandedOver}
use teler.Worldstate.Account.Object.{Account, is_empty}
use teler.Worldstate.Account.Setters.{self_destruct}
use teler.Worldstate.Account.Reverts.{IsSound}
use teler.Worldstate.Account.Lifecycle.{Reach, destruct, next}
use teler.Worldstate.Committed.{Committed, get_mutable_account, apply_changes}
use teler.Worldstate.Committed.HandedOver.{IsHandedOverBlock, apply_changes-IsHandedOver}
use teler.Worldstate.Mutable.State.{State}
use teler.Worldstate.Mutable.Snapshots.{delete_empty, put_deleted, finalise_accounts, finalise}
use teler.Worldstate.Layered.Tree.{World, IsRoute, find_child}
use teler.Worldstate.Layered.Prune.{Orders}
use teler.Worldstate.Layered.Prune.Taken.{account_at, IsVisited, IsHandedOverWorld}
use teler.Worldstate.Layered.Commit.{Refusal, parents, children_at, layer_log_of, commit}
use teler.Worldstate.Layered.Commit.Kept.{IsCommitOf, commit-IsCommitted}

-- s.parent.Commit(block, rootHash), with the state it is called from.
abbrev committed_from :
    Library
    → Orders
    → World
    → List ℕ
    → ℕ
    → ℕ
    → ℕ × State
    → Option (State × Outcome Refusal (Option (Outcome World World)))
committed_from lib orders w route block root_hash r =
    some (r.1, commit lib orders w route r.1.parent block root_hash)

abbrev rooted : Library → State → Option (ℕ × State)
rooted lib t = some (lib.empty_root_hash, t)

-- IntermediateRoot; `none` is a panic of Finalise.
unfoldable pub intermediate_root : Library → State → List ℕ → List ℕ → Bool → Option (ℕ × State)
unfolding finalise
intermediate_root lib s order apply_order delete_empty_objects =
    finalise lib s order apply_order delete_empty_objects >>= rooted lib

-- Commit of the mutable state, with the state that it leaves.
unfoldable pub commit_state :
    Library
    → Orders
    → World
    → List ℕ
    → State
    → List ℕ
    → List ℕ
    → Bool
    → ℕ
    → ℕ
    → Option (State × Outcome Refusal (Option (Outcome World World)))
unfolding intermediate_root commit
commit_state lib orders w route s order apply_order delete_empty_objects block root_hash =
    intermediate_root lib s order apply_order delete_empty_objects
    >>= committed_from lib orders w route block root_hash

module _ (lib : Library) where
  -- A transaction has loaded its dirty accounts, and has taken each through setters and reads only.
  abbrev pub IsLoaded : Committed → Map Account → Type 0
  IsLoaded s dirty =
      (addr : ℕ) (a : Account)
      → dirty addr ≡ some a
      → IsSound (get_mutable_account s addr) × Reach lib (get_mutable_account s addr) a

  delete_empty-Reach :
      (b : Bool) (first a deleted : Account)
      → delete_empty lib b a ≡ some deleted
      → Reach lib first a
      → Reach lib first deleted
  unfolding delete_empty
  delete_empty-Reach b first a deleted e r = elim (Bool-cases (b && is_empty lib a)) [
    | inl t ↦ elim (Option-cases (self_destruct a)) [
      | inl missing ↦ absurd (ground (arith, missing, if-true _ _ _ t e))
      | inr (there, is) ↦
          subst (Reach lib first) (ground (arith, is, if-true _ _ _ t e))
            (next r (destruct there is))
    ]
    | inr t ↦ subst (Reach lib first) (some-inj (if-false _ _ _ t e)) r
  ]

  put-IsLoaded :
      (s : Committed) (dirty : Map Account) (addr : ℕ) (deleted : Account)
      → IsSound (get_mutable_account s addr) × Reach lib (get_mutable_account s addr) deleted
      → IsLoaded s dirty
      → IsLoaded s (put dirty addr deleted)
  put-IsLoaded s dirty addr deleted new loaded a acct e = elim (Bool-cases (a == addr)) [
    | inl t ↦
        subst (λ b. IsSound (get_mutable_account s b) × Reach lib (get_mutable_account s b) acct)
          (sym ((==_iff a addr).0 t))
          (
            new.0,
            subst (Reach lib (get_mutable_account s addr)) (some-inj (if-true _ _ _ t e)) new.1,
          )
    | inr t ↦ loaded a acct (if-false _ _ _ t e)
  ]

  put_deleted-IsLoaded :
      (s : Committed) (dirty after : Map Account) (addr : ℕ) (o : Option Account) (b : Bool)
      → dirty addr ≡ o
      → put_deleted lib dirty addr o b ≡ some after
      → IsLoaded s dirty
      → IsLoaded s after
  put_deleted-IsLoaded s dirty after addr none b is e loaded =
      subst (IsLoaded s) (some-inj e) loaded
  put_deleted-IsLoaded s dirty after addr (some acct) b is e loaded =
      elim (Option-cases (delete_empty lib b acct)) [
        | inl missing ↦ absurd (ground (arith, missing, e))
        | inr (deleted, found) ↦
            let (sound, r) = loaded addr acct is in
            subst (IsLoaded s)
              (some-inj (subst (λ o. (o >>= λ d. some (put dirty addr d)) ≡ some after) found e))
              (put-IsLoaded s dirty addr deleted
                (sound, delete_empty-Reach b (get_mutable_account s addr) acct deleted found r)
                loaded)
      ]

  finalise_accounts-IsLoaded :
      (s : Committed) (order : List ℕ) (dirty after : Map Account) (b : Bool)
      → finalise_accounts lib dirty order b ≡ some after
      → IsLoaded s dirty
      → IsLoaded s after
  unfolding finalise_accounts
  finalise_accounts-IsLoaded s [] dirty after b e loaded = subst (IsLoaded s) (some-inj e) loaded
  finalise_accounts-IsLoaded s (addr ∷ rest) dirty after b e loaded =
      elim (Option-cases (put_deleted lib dirty addr (dirty addr) b)) [
        | inl missing ↦ absurd (ground (arith, missing, e))
        | inr (m, found) ↦
            finalise_accounts-IsLoaded s rest m after b
              (subst (λ o. (o >>= λ m. finalise_accounts lib m rest b) ≡ some after) found e)
              (put_deleted-IsLoaded s dirty m addr (dirty addr) b refl found loaded)
      ]

  -- The last transaction leaves a block that may be handed over.
  finalise-IsHandedOver :
      (s t : State) (order apply_order : List ℕ) (b : Bool)
      → finalise lib s order apply_order b ≡ some t
      → IsHandedOverBlock lib s.parent
      → IsLoaded s.parent s.dirty_accounts
      → IsHandedOver lib s.parent.parent.get_account_value t.parent.committed_accounts
  unfolding finalise
  finalise-IsHandedOver s t order apply_order b e ready loaded =
      elim (Option-cases (finalise_accounts lib s.dirty_accounts order b)) [
        | inl missing ↦ absurd (ground (arith, missing, e))
        | inr (dirty, found) ↦
            let all =
              finalise_accounts-IsLoaded s.parent order s.dirty_accounts dirty b found loaded in
            let handed =
              apply_changes-IsHandedOver lib s.parent apply_order s.tx_hash s.logs dirty ready
                all in
            let same : apply_changes lib s.parent apply_order s.tx_hash s.logs dirty ≡ t.parent =
              ground (arith, found, e) in
            subst (λ p. IsHandedOver lib s.parent.parent.get_account_value p.committed_accounts)
              same handed.0
      ]

  committed-parts :
      (orders : Orders) (w : World) (route : List ℕ) (s t : State) (order apply_order : List ℕ)
      (b : Bool) (block root_hash : ℕ) (r : Outcome Refusal (Option (Outcome World World)))
      → commit_state lib orders w route s order apply_order b block root_hash ≡ some (t, r)
      → (finalise lib s order apply_order b ≡ some t)
        × (commit lib orders w route t.parent block root_hash ≡ r)
  unfolding commit_state intermediate_root
  committed-parts orders w route s t order apply_order b block root_hash r e =
      elim (Option-cases (finalise lib s order apply_order b)) [
        | inl missing ↦ absurd (ground (arith, missing, e))
        | inr (u, found) ↦
            let whole : ◌≡◌ {A = State × Outcome Refusal (Option (Outcome World World))}
                (u, commit lib orders w route u.parent block root_hash) (t, r) =
              some-inj (
                subst
                  (λ (o : Option State).
                    ((o >>= rooted lib) >>= committed_from lib orders w route block root_hash)
                    ≡ some (t, r))
                  found e) in
            (
              found ∙ ap (λ p. some p.0) whole,
              ap (λ p. commit lib orders w route p.0.parent block root_hash) (sym whole)
                  ∙ ap (λ p. p.1) whole,
            )
      ]

-- Commit of the state of a block that comes through, pruning included, on layers that were handed over:
-- the block ran on the layer that the route leads to, which has no child with the new root hash, what
-- its finished transactions left may be handed over, its last transaction has loaded its dirty
-- accounts, sound ones, and has taken each through setters and reads only, and the accounts of the new
-- layer are all visited. The new layer over its parents is a chain of the tree now, less the layers at
-- the end of it that were pruned, which have the root hashes that HandlePrune was to prune, none of
-- them included. Each chain of layers in the tree, with those that were pruned below it, is a chain of
-- before or this one, and answers for each account and each slot what that answered over the persisted
-- state of before. The layers that stay were handed over.
pub commit_state-IsCommitted :
    (lib : Library) (orders : Orders) (w w' : World) (route : List ℕ) (s t : State)
    (order apply_order : List ℕ) (b : Bool) (block root_hash : ℕ)
    → IsHandedOverWorld lib orders w
    → IsRoute w.children route (parents w.children route) (children_at w.children route)
    → find_child (children_at w.children route) root_hash ≡ none
    → s.parent.parent.get_account_value ≡ account_at lib w.shared.store (parents w.children route)
    → IsHandedOverBlock lib s.parent
    → IsLoaded lib s.parent s.dirty_accounts
    → IsVisited orders (layer_log_of lib t.parent block root_hash)
    → commit_state lib orders w route s order apply_order b block root_hash
      ≡ some (t, done (some (done w')))
    → IsCommitOf lib orders w w'
        (layer_log_of lib t.parent block root_hash ∷ parents w.children route)
commit_state-IsCommitted lib orders w w' route s t order apply_order b block root_hash handed led
      fresh ran ready loaded visited e =
    let (finished, through) =
      committed-parts lib orders w route s t order apply_order b block root_hash
        (done (some (done w'))) e in
    commit-IsCommitted lib orders w w' route t.parent block root_hash handed led fresh
      (subst (λ below. IsHandedOver lib below t.parent.committed_accounts) ran
        (finalise-IsHandedOver lib s t order apply_order b finished ready loaded))
      visited through
