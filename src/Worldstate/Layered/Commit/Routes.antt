-- ===== src/Worldstate/Layered/Commit/Routes.antt =====
-- The routes of the tree that a layer was added to, and of the tree that is left when the oldest layers
-- of a route are pruned.
use teler.Base.{
  ℕ, zero, suc, ◌≡◌, refl, sym, ap, ◌∙◌, subst, true, false, Option, none, some, List, [], ◌∷◌,
  ◌++◌, ◌==◌, Bool-cases, Option-cases, inl, inr, if-true, if-false, some-inj, leb, length, arith,
}
use mathlib.Core.List.{append_assoc, append-nil}
use teler.Types.{LayerLog}
use teler.Worldstate.Archive.{Archive}
use teler.Worldstate.Layered.Tree.{
  Tree, Forest, Entry, IsChain, IsRoute, append, find_child, get_children, get_layer_log,
  get_root_hash,
}
use teler.Worldstate.Layered.Prune.{pruning_route, slice, get_to_be_pruned}
use teler.Worldstate.Layered.Prune.Taken.{find_child-IsChild}
use teler.Worldstate.Layered.Prune.Kept.{pruning_route-last}
use teler.Worldstate.Layered.Commit.{graft, graft_at}
use teler.Worldstate.Layered.Commit.Grafts.{graft_at-same, graft_at-other}

-- The layers of a route are a chain.
pub IsRoute-IsChain :
    (f g : Forest) (route : List ℕ) (chain : List LayerLog)
    → IsRoute f route chain g
    → IsChain f chain
IsRoute-IsChain _ _ _ _ (IsRoute.here f) = IsChain.stop f
IsRoute-IsChain _ _ _ _ (IsRoute.down f h log children route above g found rest) =
    IsChain.step f log children above (find_child-IsChild f h (Tree.layer log children) found).0
      (IsRoute-IsChain children g route above rest)

-- The route that HandlePrune collects from the layers is the one they stand on.
pub IsRoute-pruning_route :
    (f g : Forest) (route : List ℕ) (chain : List LayerLog)
    → IsRoute f route chain g
    → pruning_route chain [] ≡ route
unfolding pruning_route
IsRoute-pruning_route _ _ _ _ (IsRoute.here f) = refl
IsRoute-pruning_route _ _ _ _ (IsRoute.down f h log children route above g found rest) =
    pruning_route-last above log []
    ∙ ap (λ r. log.root_hash ∷ r) (IsRoute-pruning_route children g route above rest)
    ∙ ap (λ x. x ∷ route) (find_child-IsChild f h (Tree.layer log children) found).1

-- A route goes on at the first child of each root hash only.
layer_inj :
    (log log' : LayerLog) (kids kids' : Forest)
    → ◌≡◌ {A = Option Tree} (some (Tree.layer log kids)) (some (Tree.layer log' kids'))
    → (log ≡ log') × (kids ≡ kids')
layer_inj log log' kids kids' e = (ap get_layer_log (some-inj e), ap get_children (some-inj e))

-- What is left of a route behind its first layers.
pub IsRoute-rest :
    (f g h : Forest) (first rest : List ℕ) (chain gone : List LayerLog)
    → IsRoute f first gone h
    → (route : List ℕ) → IsRoute f route chain g
    → route ≡ first ++ rest
    → (kept : List LayerLog) × IsRoute h rest kept g × (kept ++ gone ≡ chain)
IsRoute-rest _ g _ _ rest chain _ (IsRoute.here f) route whole is =
    (chain, subst (λ r. IsRoute f r chain g) is whole, append-nil chain)
IsRoute-rest _ _ _ _ rest _ _ (IsRoute.down f h log children first gone i found led) _
      (IsRoute.here f') is =
    absurd (ground (arith, is))
IsRoute-rest _ _ _ _ rest _ _ (IsRoute.down f h log children first gone i found led) _
      (IsRoute.down f' h' log' children' route above g found' led') is =
    let same : h' ≡ h = ground (arith, is) in
    let tails : route ≡ first ++ rest = ground (arith, is) in
    let (logs, kids) =
      layer_inj log' log children' children (
        sym (subst (λ x. find_child f x ≡ some (Tree.layer log' children')) same found') ∙ found) in
    let (kept, behind, all) =
      IsRoute-rest children g i first rest above gone led route
        (subst (λ c. IsRoute c route above g) kids led') tails in
    (
      kept,
      behind,
      sym (append_assoc kept gone (log ∷ []))
          ∙ ap (λ l. l ++ log ∷ []) all
          ∙ ap (λ x. above ++ x ∷ []) (sym logs),
    )

find_child-first :
    (t : Tree) (rest : Forest) (h : ℕ)
    → (get_root_hash t == h) ≡ true
    → find_child (Forest.cons t rest) h ≡ some t
unfolding find_child
find_child-first t rest h e = rw (e) refl

find_child-later :
    (t : Tree) (rest : Forest) (h : ℕ)
    → (get_root_hash t == h) ≡ false
    → find_child (Forest.cons t rest) h ≡ find_child rest h
unfolding find_child
find_child-later t rest h e = rw (e) refl

-- The first child of a root hash has its changed children.
find_child-graft_at :
    (f : Forest) (h : ℕ) (log : LayerLog) (children : Forest) (change : Forest → Forest)
    → find_child f h ≡ some (Tree.layer log children)
    → find_child (graft_at f h change) h ≡ some (Tree.layer log (change children))
unfolding find_child graft_at
find_child-graft_at Forest.nil h log children change e = absurd (ground arith)
find_child-graft_at (Forest.cons (Tree.layer top kids) rest) h log children change e =
    elim (Bool-cases (top.root_hash == h)) [
      | inl t ↦
          let (a, b) = layer_inj top log kids children (if-true _ _ _ t e) in
          ap (λ c. find_child c h) (graft_at-same top kids rest h change t)
          ∙ find_child-first (Tree.layer top (change kids)) rest h t
          ∙ ap (λ l. some (Tree.layer l (change kids))) a
          ∙ ap (λ k. some (Tree.layer log (change k))) b
      | inr t ↦
          ap (λ c. find_child c h) (graft_at-other top kids rest h change t)
          ∙ find_child-later (Tree.layer top kids) (graft_at rest h change) h t
          ∙ find_child-graft_at rest h log children change (if-false _ _ _ t e)
    ]

find_child-append :
    (f : Forest) (t : Tree)
    → find_child f (get_root_hash t) ≡ none
    → find_child (append f t) (get_root_hash t) ≡ some t
unfolding find_child
find_child-append Forest.nil t e = ground arith
find_child-append (Forest.cons u rest) t e =
    elim (Bool-cases (get_root_hash u == get_root_hash t)) [
      | inl same ↦ absurd (ground arith)
      | inr other ↦ rw (other) (find_child-append rest t (if-false _ _ _ other e))
    ]

-- The route to the new layer, where no child of its parent has its root hash.
pub graft-IsRoute :
    (f g : Forest) (route : List ℕ) (below : List LayerLog) (new : LayerLog)
    → IsRoute f route below g
    → find_child g new.root_hash ≡ none
    → IsRoute
        (graft f route (Tree.layer new Forest.nil))
        (route ++ new.root_hash ∷ [])
        (new ∷ below)
        Forest.nil
unfolding graft
graft-IsRoute _ _ _ _ new (IsRoute.here f) fresh =
    IsRoute.down (append f (Tree.layer new Forest.nil)) new.root_hash new Forest.nil [] []
      Forest.nil (find_child-append f (Tree.layer new Forest.nil) fresh) (IsRoute.here Forest.nil)
graft-IsRoute _ _ _ _ new (IsRoute.down f h log children route above g found rest) fresh =
    IsRoute.down (graft_at f h (λ c. graft c route (Tree.layer new Forest.nil))) h log
      (graft children route (Tree.layer new Forest.nil)) (route ++ new.root_hash ∷ []) (new ∷ above)
      Forest.nil
      (find_child-graft_at f h log children (λ c. graft c route (Tree.layer new Forest.nil)) found)
      (graft-IsRoute children g route above new rest fresh)

-- What is to be pruned is the first part of the route.
slice-prefix :
    (l : List ℕ) (n : ℕ) (taken : List ℕ)
    → slice l n ≡ some taken
    → (rest : List ℕ) × (l ≡ taken ++ rest)
slice-prefix l zero taken e = (l, ap (λ t. t ++ l) (some-inj e))
slice-prefix [] (suc n) taken e = absurd (ground arith)
slice-prefix (x ∷ l) (suc n) taken e = elim (Option-cases (slice l n)) [
  | inl out ↦ absurd (ground (arith, out, e))
  | inr (t, is) ↦
      let (rest, whole) = slice-prefix l n t is in
      let all : x ∷ t ≡ taken = ground (arith, is, e) in
      (rest, ap (λ k. x ∷ k) whole ∙ ap (λ k. k ++ rest) all)
]

pub get_to_be_pruned-prefix :
    (archive : Archive Entry) (route taken : List ℕ)
    → get_to_be_pruned archive route ≡ some taken
    → (rest : List ℕ) × (route ≡ taken ++ rest)
unfolding get_to_be_pruned
get_to_be_pruned-prefix archive route taken e =
    elim (Bool-cases (leb (length route) archive.max_layer_to_retain)) [
      | inl t ↦ (route, ap (λ k. k ++ route) (some-inj (if-true _ _ _ t e)))
      | inr t ↦ slice-prefix route archive.pruning_frequency taken (if-false _ _ _ t e)
    ]
