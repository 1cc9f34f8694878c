-- ===== src/Worldstate/Layered/Commit/Grafts.antt =====
-- The chains of the tree that a layer was added to.
use teler.Base.{
  ℕ, ◌≡◌, refl, sym, ap, ◌∙◌, subst, true, false, some, List, [], ◌∷◌, ◌++◌, ◌==◌, Bool-cases, ◌⊎◌,
  inl, inr, if-true, if-false, some-inj, arith,
}
use teler.Types.{LayerLog}
use teler.Worldstate.Layered.Tree.{
  Tree, Forest, IsChild, IsChain, append, get_children, get_layer_log,
}
use teler.Worldstate.Layered.Commit.{graft, graft_at, layer_at, parents}

IsChild-nil : (u : Tree) → IsChild u Forest.nil → ⊥
IsChild-nil u c = elim c [ ]

IsChild-cons :
    (u v : Tree) (rest : Forest) → IsChild u (Forest.cons v rest) → (u ≡ v) ⊎ IsChild u rest
IsChild-cons u _ _ (IsChild.first rest) = inl refl
IsChild-cons u _ _ (IsChild.later v rest c) = inr c

append-IsChild : (u t : Tree) (f : Forest) → IsChild u (append f t) → IsChild u f ⊎ (u ≡ t)
append-IsChild u t Forest.nil c = elim (IsChild-cons u t Forest.nil c) [
  | inl same ↦ inr same
  | inr none_left ↦ absurd (IsChild-nil u none_left)
]
append-IsChild u t (Forest.cons v rest) c = elim (IsChild-cons u v (append rest t) c) [
  | inl same ↦ inl (subst (λ x. IsChild x (Forest.cons v rest)) (sym same) (IsChild.first rest))
  | inr there ↦ elim (append-IsChild u t rest there) [
    | inl old ↦ inl (IsChild.later v rest old)
    | inr new ↦ inr new
  ]
]

layer_at-IsChild :
    (f : Forest) (h : ℕ) (log : LayerLog) (children : Forest)
    → layer_at f h ≡ some (log, children)
    → IsChild (Tree.layer log children) f
unfolding layer_at
layer_at-IsChild Forest.nil h log children is = absurd (ground arith)
layer_at-IsChild (Forest.cons (Tree.layer top kids) rest) h log children is =
    elim (Bool-cases (top.root_hash == h)) [
      | inl e ↦
          let same : (top, kids) ≡ (log, children) =
            some-inj (if-true (top.root_hash == h) (some (top, kids)) (layer_at rest h) e is) in
          subst
            (λ (p : LayerLog × Forest).
              IsChild (Tree.layer p.0 p.1) (Forest.cons (Tree.layer top kids) rest))
            same (IsChild.first rest)
      | inr e ↦ IsChild.later (Tree.layer top kids) rest (
          layer_at-IsChild rest h log children
            (if-false (top.root_hash == h) (some (top, kids)) (layer_at rest h) e is))
    ]

pub graft_at-same :
    (top : LayerLog) (kids rest : Forest) (h : ℕ) (change : Forest → Forest)
    → (top.root_hash == h) ≡ true
    → graft_at (Forest.cons (Tree.layer top kids) rest) h change
      ≡ Forest.cons (Tree.layer top (change kids)) rest
unfolding graft_at
graft_at-same top kids rest h change e = rw (e) refl

pub graft_at-other :
    (top : LayerLog) (kids rest : Forest) (h : ℕ) (change : Forest → Forest)
    → (top.root_hash == h) ≡ false
    → graft_at (Forest.cons (Tree.layer top kids) rest) h change
      ≡ Forest.cons (Tree.layer top kids) (graft_at rest h change)
unfolding graft_at
graft_at-other top kids rest h change e = rw (e) refl

-- A tree of the changed children is one of before, or the one that was changed.
graft_at-IsChild :
    (f : Forest) (h : ℕ) (change : Forest → Forest) (u : Tree)
    → IsChild u (graft_at f h change)
    → IsChild u f
      ⊎ ((log : LayerLog) × (children : Forest) × (layer_at f h ≡ some (log, children))
          × (u ≡ Tree.layer log (change children)))
unfolding graft_at layer_at
graft_at-IsChild Forest.nil h change u c = absurd (IsChild-nil u c)
graft_at-IsChild (Forest.cons (Tree.layer top kids) rest) h change u c =
    elim (Bool-cases (top.root_hash == h)) [
      | inl e ↦
          elim (IsChild-cons u (Tree.layer top (change kids)) rest
            (subst (IsChild u) (graft_at-same top kids rest h change e) c)) [
              | inl same ↦ inr (top, kids, rw (e) refl, same)
              | inr old ↦ inl (IsChild.later (Tree.layer top kids) rest old)
            ]
      | inr e ↦
          elim (IsChild-cons u (Tree.layer top kids) (graft_at rest h change)
            (subst (IsChild u) (graft_at-other top kids rest h change e) c)) [
              | inl same ↦ inl (
                  subst (λ x. IsChild x (Forest.cons (Tree.layer top kids) rest)) (sym same)
                    (IsChild.first rest))
              | inr there ↦ elim (graft_at-IsChild rest h change u there) [
                | inl old ↦ inl (IsChild.later (Tree.layer top kids) rest old)
                | inr (log, children, is, same) ↦ inr (log, children, rw (e) is, same)
              ]
            ]
    ]

parents-step :
    (f : Forest) (h : ℕ) (route : List ℕ) (log : LayerLog) (children : Forest)
    → layer_at f h ≡ some (log, children)
    → parents f (h ∷ route) ≡ parents children route ++ log ∷ []
unfolding parents
parents-step f h route log children found = rw (found, parents) refl

-- Nothing hangs under a layer without children.
leaf-IsChain : (f : Forest) (chain : List LayerLog) → IsChain f chain → f ≡ Forest.nil → chain ≡ []
leaf-IsChain _ _ (IsChain.stop f) e = refl
leaf-IsChain _ _ (IsChain.step f log children above child rest) e =
    absurd
      (IsChild-nil (Tree.layer log children) (subst (IsChild (Tree.layer log children)) e child))

-- A chain of the tree with the new layer is one of before, or the new layer over its parents.
pub graft-IsChain :
    (route : List ℕ) (f g : Forest) (new : LayerLog) (chain : List LayerLog)
    → IsChain g chain
    → g ≡ graft f route (Tree.layer new Forest.nil)
    → IsChain f chain ⊎ (chain ≡ new ∷ parents f route)
unfolding graft parents
graft-IsChain route f _ new _ (IsChain.stop g) is = inl (IsChain.stop f)
graft-IsChain [] f _ new _ (IsChain.step g log children above child rest) is =
    elim (append-IsChild (Tree.layer log children) (Tree.layer new Forest.nil) f
      (subst (IsChild (Tree.layer log children)) is child)) [
        | inl old ↦ inl (IsChain.step f log children above old rest)
        | inr same ↦
            let alone = leaf-IsChain children above rest (ap get_children same) in
            inr (ap (λ l. l ++ log ∷ []) alone ∙ ap (λ l. l ∷ []) (ap get_layer_log same))
      ]
graft-IsChain (h ∷ route) f _ new _ (IsChain.step g log children above child rest) is =
    elim (graft_at-IsChild f h (λ c. graft c route (Tree.layer new Forest.nil))
      (Tree.layer log children) (subst (IsChild (Tree.layer log children)) is child)) [
        | inl old ↦ inl (IsChain.step f log children above old rest)
        | inr (top, kids, found, same) ↦
            let log_is : log ≡ top = ap get_layer_log same in
            elim (graft-IsChain route kids children new above rest (ap get_children same)) [
              | inl old ↦ inl (
                  subst (λ t. IsChain f (above ++ t ∷ [])) (sym log_is)
                    (IsChain.step f top kids above (layer_at-IsChild f h top kids found) old))
              | inr over ↦ inr (
                  ap (λ l. l ++ log ∷ []) over
                  ∙ ap (λ t. new ∷ (parents kids route ++ t ∷ [])) log_is
                  ∙ ap (λ l. new ∷ l) (sym (parents-step f h route top kids found)))
            ]
      ]
