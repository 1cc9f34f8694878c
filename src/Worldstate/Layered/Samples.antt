-- ===== src/Worldstate/Layered/Samples.antt =====
-- The persisted state of block 6 with the layer of block 7 over it.
use teler.Base.{◌≡◌, refl, sym, ap, ◌∙◌, subst, List, [], ◌∷◌, ◌++◌, ◌⊎◌, inl, inr}
use teler.Types.{LayerLog}
use teler.Worldstate.Samples.{sample_library}
use teler.Statestore.{get_account_value}
use teler.Statestore.Accounts.{IsHandedOver}
use teler.Worldstate.Archive.{register, new_archive}
use teler.Statestore.Samples.{before, sample_log, sample-IsHandedOver, sample-IsVisited}
use teler.Worldstate.Archive.{Archive}
use teler.Worldstate.Layered.{answer}
use teler.Worldstate.Layered.Tree.{
  get_children, get_layer_log, Tree, Forest, Entry, World, IsChild, IsChain,
}
use teler.Worldstate.Layered.Prune.{Orders}
use teler.Worldstate.Layered.Prune.Taken.{account_at, IsVisited, IsHandedOverWorld}

-- The persisted state of block 6 with one layer.
abbrev pub world_of : Archive Entry → World
world_of archive = record {
  shared = record { store = before; archive = archive };
  height = 6;
  root_hash = 60;
  children = Forest.cons (Tree.layer sample_log Forest.nil) Forest.nil;
}

abbrev pub orders : Orders
orders = record { accounts = λ log. 3 ∷ []; codes = λ log. 104 ∷ [] }

-- The one chain of the sample.
IsChild-nil : (t : Tree) (f : Forest) → IsChild t f → f ≡ Forest.nil → ⊥
IsChild-nil t _ (IsChild.first rest) e = cc
IsChild-nil t _ (IsChild.later u rest c) e = cc

head_of : Tree → Forest → Tree
head_of t Forest.nil = t
head_of t (Forest.cons u rest) = u

tail_of : Forest → Forest
tail_of Forest.nil = Forest.nil
tail_of (Forest.cons u rest) = rest

IsChild-single : (t u : Tree) (f : Forest) → IsChild t f → f ≡ Forest.cons u Forest.nil → t ≡ u
unfolding head_of tail_of
IsChild-single t u _ (IsChild.first rest) e = ap (head_of t) e
IsChild-single t u _ (IsChild.later v rest c) e = absurd (IsChild-nil t rest c (ap tail_of e))

IsChain-nil : (f : Forest) (chain : List LayerLog) → IsChain f chain → f ≡ Forest.nil → chain ≡ []
IsChain-nil _ _ (IsChain.stop f) e = refl
IsChain-nil _ _ (IsChain.step f top children above child rest) e =
    absurd (IsChild-nil (Tree.layer top children) f child e)

IsChain-single :
    (f : Forest) (chain : List LayerLog) (log : LayerLog)
    → IsChain f chain
    → f ≡ Forest.cons (Tree.layer log Forest.nil) Forest.nil
    → (chain ≡ []) ⊎ (chain ≡ log ∷ [])
IsChain-single _ _ log (IsChain.stop f) e = inl refl
IsChain-single _ _ log (IsChain.step f top children above child rest) e =
    let same = IsChild-single (Tree.layer top children) (Tree.layer log Forest.nil) f child e in
    let none_above = IsChain-nil children above rest (ap get_children same) in
    inr (ap (λ l. l ++ top ∷ []) none_above ∙ ap (λ t. t ∷ []) (ap get_layer_log same))

-- The condition on a chain, its youngest layer over the others.
abbrev IsHandedOverChain : List LayerLog → Type 0
IsHandedOverChain [] = Unit {0}
IsHandedOverChain (log ∷ below) =
    IsHandedOver sample_library (account_at sample_library before below) log.updated_accounts
    × IsVisited orders log

sample-IsHandedOverChain : IsHandedOverChain (sample_log ∷ [])
unfolding answer get_account_value
sample-IsHandedOverChain = (sample-IsHandedOver, sample-IsVisited)

pub world_of-IsHandedOverWorld :
    (archive : Archive Entry) → IsHandedOverWorld sample_library orders (world_of archive)
world_of-IsHandedOverWorld archive log below at =
    elim (IsChain-single (world_of archive).children (log ∷ below) sample_log at refl) [
      | inl e ↦ cc
      | inr e ↦ subst IsHandedOverChain (sym e) sample-IsHandedOverChain
    ]

-- Two layers on a route are too many.
abbrev pub sample_world : World
sample_world =
    world_of
      (register (register (new_archive 1 1) 6 60 Entry.persisted) 7 70 (Entry.layered sample_log))
