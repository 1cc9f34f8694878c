-- ===== src/Worldstate/Layered/Prune/Kept.antt =====
-- What the layers that stay answer is what they answered before the oldest ones were pruned.
use mathlib.Core.List.{append-nil, append_assoc}
use teler.Base.{
  some-inj, ℕ, ◌≡◌, refl, sym, ap, ◌∙◌, subst, fun_ext, some, List, [], ◌∷◌, ◌++◌, Option-cases,
  inl, inr, arith, Outcome, fail, done, for_each, and_then-eq-done,
}
use teler.Types.{Library, LayerLog}
use teler.Statestore.{get_account_value, get_storage_by_version}
use teler.Statestore.Accounts.{IsHandedOver}
use teler.Worldstate.Layered.{answer}
use teler.Worldstate.Layered.Tree.{Tree, Forest, World, IsChild, IsChain, IsRoute, find_child}
use teler.Worldstate.Layered.Prune.{Orders, prune_one, handle_prune}
use teler.Worldstate.Layered.Prune.{prune_found, prune_listed, pruning_route, get_to_be_pruned}
use teler.Worldstate.Layered.Prune.Taken.{
  accounts_of, slots_of, account_at, slot_at, IsHandedOverWorld, IsSame, IsTakenOver, answer-last,
  map-last, find_child-IsChild, prune_child-IsTakenOver, done-inj,
}

-- A layer that the persisted state has taken over, with what hung under it.
abbrev pub IsTaken : Library → World → World → LayerLog → Type 0
IsTaken lib w w' log =
    (children : Forest) × IsChild (Tree.layer log children) w.children
    × IsTakenOver lib w.shared.store w'.shared.store log
    × (w'.children ≡ children)

taken-account_at :
    (lib : Library) (w w' : World) (log : LayerLog)
    → IsTaken lib w w' log
    → (chain : List LayerLog) (addr : ℕ)
    → account_at lib w'.shared.store chain addr
      ≡ account_at lib w.shared.store (chain ++ log ∷ []) addr
taken-account_at lib w w' log (children, child, (accounts, slots), is) chain addr =
    answer-last (get_account_value lib w.shared.store) (get_account_value lib w'.shared.store)
      (accounts_of chain) log.updated_accounts accounts addr
    ∙ ap (λ l. answer (get_account_value lib w.shared.store) l addr)
        (map-last (λ l. l.updated_accounts) chain log)

taken-slot_at :
    (lib : Library) (w w' : World) (log : LayerLog)
    → IsTaken lib w w' log
    → (chain : List LayerLog) (addr version key : ℕ)
    → slot_at w'.shared.store chain addr version key
      ≡ slot_at w.shared.store (chain ++ log ∷ []) addr version key
taken-slot_at lib w w' log (children, child, (accounts, slots), is) chain addr version key =
    answer-last (get_storage_by_version w.shared.store addr version)
      (get_storage_by_version w'.shared.store addr version) (slots_of chain addr version)
      (log.updated_storage addr version) (slots addr version) key
    ∙ ap (λ l. answer (get_storage_by_version w.shared.store addr version) l key)
        (map-last (λ l. l.updated_storage addr version) chain log)

taken-IsChain :
    (lib : Library) (w w' : World) (log : LayerLog)
    → IsTaken lib w w' log
    → (chain : List LayerLog) → IsChain w'.children chain
    → IsChain w.children (chain ++ log ∷ [])
taken-IsChain lib w w' log (children, child, taken, is) chain at =
    IsChain.step w.children log children chain child (subst (λ f. IsChain f chain) is at)

not_done : {A : Type 0} {x y : A} → ◌≡◌ {A = Outcome A A} (fail x) (done y) → ⊥
not_done e = cc

pub pruning_route-last :
    (above : List LayerLog) (log : LayerLog) (route : List ℕ)
    → pruning_route (above ++ log ∷ []) route ≡ log.root_hash ∷ pruning_route above route
unfolding pruning_route
pruning_route-last [] log route = refl
pruning_route-last (top ∷ above) log route = pruning_route-last above log (top.root_hash ∷ route)

module _ (lib : Library) (orders : Orders) where
  prune_one-IsTaken :
      (w w' : World) (child_hash : ℕ)
      → IsHandedOverWorld lib orders w
      → prune_one orders w child_hash ≡ done w'
      → (log : LayerLog) × (log.root_hash ≡ child_hash)
        × (find_child w.children child_hash ≡ some (Tree.layer log w'.children))
        × IsTaken lib w w' log
  unfolding prune_one answer get_account_value
  prune_one-IsTaken w w' child_hash handed r =
      elim (Option-cases (find_child w.children child_hash)) [
        | inl missing ↦ absurd (not_done (subst (λ o. prune_found orders w o ≡ done w') missing r))
        | inr (Tree.layer log children, found) ↦
            let (child, is) =
              find_child-IsChild w.children child_hash (Tree.layer log children) found in
            let (ran, visited) =
              handed log []
                (IsChain.step w.children log children [] child (IsChain.stop children)) in
            let (taken, kids) =
              prune_child-IsTakenOver lib orders w w' (Tree.layer log children) visited ran
                (subst (λ o. prune_found orders w o ≡ done w') found r) in
            (
              log,
              is,
              found ∙ ap (λ f. some (Tree.layer log f)) (sym kids),
              (children, child, taken, kids),
            )
      ]

  taken-IsHandedOverWorld :
      (w w' : World) (log : LayerLog)
      → IsTaken lib w w' log
      → IsHandedOverWorld lib orders w
      → IsHandedOverWorld lib orders w'
  taken-IsHandedOverWorld w w' log taken handed top below at =
      let (ran, visited) =
        handed top (below ++ log ∷ []) (taken-IsChain lib w w' log taken (top ∷ below) at) in
      (
        subst (λ b. IsHandedOver lib b top.updated_accounts)
            (sym (fun_ext (λ a. taken-account_at lib w w' log taken below a))) ran,
        visited,
      )

  unpruned-IsSame :
      {w w' : World}
      → w ≡ w'
      → (chain : List LayerLog) → IsChain w'.children chain
      → IsSame lib w w' chain []
  unpruned-IsSame {w = w} {w' = w'} same chain at =
      let whole : chain ≡ chain ++ [] = sym (append-nil chain) in
      (
        subst (IsChain w.children) whole (subst (λ u. IsChain u.children chain) (sym same) at),
        λ a.
            ap (λ u. account_at lib u.shared.store chain a) (sym same)
            ∙ ap (λ l. account_at lib w.shared.store l a) whole,
        λ a v k.
            ap (λ u. slot_at u.shared.store chain a v k) (sym same)
            ∙ ap (λ l. slot_at w.shared.store l a v k) whole,
      )

  longer-IsSame :
      (w u w' : World) (log : LayerLog)
      → IsTaken lib w u log
      → (chain pruned : List LayerLog) → IsSame lib u w' chain pruned
      → IsSame lib w w' chain (pruned ++ log ∷ [])
  longer-IsSame w u w' log taken chain pruned (at, accounts, slots) =
      let whole : (chain ++ pruned) ++ log ∷ [] ≡ chain ++ (pruned ++ log ∷ []) =
        append_assoc chain pruned (log ∷ []) in
      (
        subst (IsChain w.children) whole (taken-IsChain lib w u log taken (chain ++ pruned) at),
        λ a.
            accounts a
            ∙ taken-account_at lib w u log taken (chain ++ pruned) a
            ∙ ap (λ l. account_at lib w.shared.store l a) whole,
        λ a v k.
            slots a v k
            ∙ taken-slot_at lib w u log taken (chain ++ pruned) a v k
            ∙ ap (λ l. slot_at w.shared.store l a v k) whole,
      )

  -- The layers that a list of root hashes prunes, the youngest first.
  prune_all-IsSame :
      (to_prune : List ℕ) (w w' : World)
      → IsHandedOverWorld lib orders w
      → for_each (prune_one orders) to_prune w ≡ done w'
      → (pruned : List LayerLog) × (pruning_route pruned [] ≡ to_prune)
        × IsRoute w.children to_prune pruned w'.children
        × IsHandedOverWorld lib orders w'
        × ((chain : List LayerLog) → IsChain w'.children chain → IsSame lib w w' chain pruned)
  unfolding pruning_route
  prune_all-IsSame [] w w' handed r =
      let same : w ≡ w' = done-inj r in
      (
        [],
        refl,
        subst (λ u. IsRoute w.children [] [] u.children) same (IsRoute.here w.children),
        subst (λ u. IsHandedOverWorld lib orders u) same handed,
        λ chain at. unpruned-IsSame same chain at,
      )
  prune_all-IsSame (h ∷ rest) w w' handed r =
      let (u, first, later) =
        and_then-eq-done (prune_one orders w h) (for_each (prune_one orders) rest) r in
      let (log, is, found, taken) = prune_one-IsTaken w u h handed first in
      let (pruned, route, led, handed', same) =
        prune_all-IsSame rest u w' (taken-IsHandedOverWorld w u log taken handed) later in
      (
        pruned ++ log ∷ [],
        pruning_route-last pruned log []
            ∙ ap (λ l. log.root_hash ∷ l) route
            ∙ ap (λ x. x ∷ rest) is,
        IsRoute.down w.children h log u.children rest pruned w'.children found led,
        handed',
        λ chain at. longer-IsSame w u w' log taken chain pruned (same chain at),
      )

-- HandlePrune, where it comes to its end, on layers that were handed over by blocks that ran on the
-- layers below them, the accounts of each visited: there are layers, those on the route of the root
-- hashes that were to be pruned, so that the children of the last of them are the children now, and
-- each chain of layers that stays stood on them before, and answers for each account and each slot
-- what it answered before. The layers that stay were handed over again.
pub handle_prune-IsSame :
    (lib : Library) (orders : Orders) (w w' : World) (route : List ℕ)
    → IsHandedOverWorld lib orders w
    → handle_prune orders w route ≡ some (done w')
    → (pruned : List LayerLog) × (get_to_be_pruned w.shared.archive route
        ≡ some (pruning_route pruned []))
      × IsRoute w.children (pruning_route pruned []) pruned w'.children
      × IsHandedOverWorld lib orders w'
      × ((chain : List LayerLog) → IsChain w'.children chain → IsSame lib w w' chain pruned)
unfolding handle_prune
handle_prune-IsSame lib orders w w' route handed r =
    elim (Option-cases (get_to_be_pruned w.shared.archive route)) [
      | inl out ↦
          absurd (ground (arith, subst (λ o. prune_listed orders w o ≡ some (done w')) out r))
      | inr (to_prune, is) ↦
          let (pruned, same_route, led, handed', same) =
            prune_all-IsSame lib orders to_prune w w' handed
              (some-inj (subst (λ o. prune_listed orders w o ≡ some (done w')) is r)) in
          (
            pruned,
            is ∙ ap some (sym same_route),
            subst (λ r. IsRoute w.children r pruned w'.children) (sym same_route) led,
            handed',
            same,
          )
    ]
