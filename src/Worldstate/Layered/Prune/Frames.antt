-- ===== src/Worldstate/Layered/Prune/Frames.antt =====
-- Destructing layers leaves the accounts, the slots and the codes of the persisted state alone.
use teler.Base.{◌≡◌, refl, ◌∙◌, ℕ, Bool, true, false, ◌==◌, if◌then◌else◌}
use teler.Types.{LayerLog}
use teler.Statestore.{Store}
use teler.Statestore.Persist.{delete_children, delete_layer_log}
use teler.Worldstate.Layered.Tree.{
  Tree, Forest, Shared, destruct, destruct_all, destruct_self, get_root_hash,
}
use teler.Worldstate.Layered.Prune.{destruct_others}

abbrev pub SameData : Store → Store → Type 0
SameData s t =
    (t.account_values ≡ s.account_values)
    × (t.account_versions ≡ s.account_versions)
    × (t.storage ≡ s.storage)
    × (t.codes ≡ s.codes)
    × (t.gc ≡ s.gc)

pub SameData-trans : (s t u : Store) → SameData s t → SameData t u → SameData s u
SameData-trans s t u (a, b, c, d, e) (a', b', c', d', e') = (a' ∙ a, b' ∙ b, c' ∙ c, d' ∙ d, e' ∙ e)

destruct_self-SameData :
    (s : Shared) (log : LayerLog) → SameData s.store (destruct_self s log).store
unfolding destruct_self delete_children delete_layer_log
destruct_self-SameData s log = (refl, refl, refl, refl, refl)

mutual
  unfolding destruct

  destruct-SameData : (t : Tree) (s : Shared) → SameData s.store (destruct s t).store
  destruct-SameData (Tree.layer log children) s =
      SameData-trans s.store (destruct_all s children).store
        (destruct_self (destruct_all s children) log).store (destruct_all-SameData children s)
        (destruct_self-SameData (destruct_all s children) log)

  destruct_all-SameData : (f : Forest) (s : Shared) → SameData s.store (destruct_all s f).store
  destruct_all-SameData Forest.nil s = (refl, refl, refl, refl, refl)
  destruct_all-SameData (Forest.cons t rest) s =
      SameData-trans s.store (destruct s t).store (destruct_all (destruct s t) rest).store
        (destruct-SameData t s) (destruct_all-SameData rest (destruct s t))

pub destruct_others-SameData :
    (f : Forest) (s : Shared) (child_hash : ℕ)
    → SameData s.store (destruct_others s f child_hash).store
unfolding destruct_others
destruct_others-SameData Forest.nil s child_hash = (refl, refl, refl, refl, refl)
destruct_others-SameData (Forest.cons t rest) s child_hash =
    let next = if get_root_hash t == child_hash then s else destruct s t in
    SameData-trans s.store next.store (destruct_others next rest child_hash).store
      (one (get_root_hash t == child_hash)) (destruct_others-SameData rest next child_hash)
  where
    one : (b : Bool) → SameData s.store (if b then s else destruct s t).store
    one true = (refl, refl, refl, refl, refl)
    one false = destruct-SameData t s
