-- ===== src/Worldstate/Layered/Prune/Taken.antt =====
-- What the persisted state answers once it has taken over a layer, and what a chain of layers answers
-- over it.
use mathlib.Core.List.{Memᴰ, map}
use teler.Base.{
  ℕ, ◌≡◌, refl, sym, ap, ◌∙◌, subst, fun_ext, Option, some, List, [], ◌∷◌, ◌++◌, ◌==◌, ==_iff,
  get_or, some-inj, if-true, if-false, Bool-cases, inl, inr, arith, Outcome, fail, done, incr64,
}
use teler.Types.{Library, AccountValue, LayerLog}
use teler.Statestore.{Store, get_account_value, get_storage_by_version}
use teler.Statestore.Persist.{persist_layer_log, delete_children, delete_layer_log}
use teler.Statestore.Accounts.{IsHandedOver}
use teler.Statestore.Answers.{persist_layer_log-answers, same_accounts}
use teler.Worldstate.Archive.{deregister}
use teler.Worldstate.Layered.{answer}
use teler.Worldstate.Layered.Tree.{
  Tree, Forest, Shared, World, IsChild, IsChain, get_layer_log, get_root_hash, get_children,
  find_child,
}
use teler.Worldstate.Layered.Prune.{Orders, destruct_others, settle, take_over, prune_child}
use teler.Worldstate.Layered.Prune.Frames.{destruct_others-SameData}

-- What a chain of layers answers for an account, and for a slot.
abbrev pub accounts_of : List LayerLog → List (ℕ → Option AccountValue)
accounts_of chain = map (λ log. log.updated_accounts) chain

abbrev pub slots_of : List LayerLog → ℕ → ℕ → List (ℕ → Option ℕ)
slots_of chain addr version = map (λ log. log.updated_storage addr version) chain

abbrev pub account_at : Library → Store → List LayerLog → ℕ → AccountValue
account_at lib store chain = answer (get_account_value lib store) (accounts_of chain)

abbrev pub slot_at : Store → List LayerLog → ℕ → ℕ → ℕ → ℕ
slot_at store chain addr version key =
    answer (get_storage_by_version store addr version) (slots_of chain addr version) key

-- Every account of a log is visited.
abbrev pub IsVisited : Orders → LayerLog → Type 0
IsVisited orders log =
    (a : ℕ) (v : AccountValue) → log.updated_accounts a ≡ some v → Memᴰ a (orders.accounts log)

-- The layers were handed over by blocks that ran on the layers below them, and their accounts are
-- visited.
abbrev pub IsHandedOverWorld : Library → Orders → World → Type 0
IsHandedOverWorld lib orders w =
    (log : LayerLog) (below : List LayerLog)
    → IsChain w.children (log ∷ below)
    → IsHandedOver lib (account_at lib w.shared.store below) log.updated_accounts
      × IsVisited orders log

-- Each chain of the later state is one of the earlier, less the layers that were pruned, and answers
-- the same.
abbrev pub IsSame : Library → World → World → List LayerLog → List LayerLog → Type 0
IsSame lib w w' chain pruned =
    IsChain w.children (chain ++ pruned)
    × ((addr : ℕ)
        → account_at lib w'.shared.store chain addr
          ≡ account_at lib w.shared.store (chain ++ pruned) addr)
    × ((addr version key : ℕ)
        → slot_at w'.shared.store chain addr version key
          ≡ slot_at w.shared.store (chain ++ pruned) addr version key)

-- The last layers of a chain, taken into what it stands on.
pub answer-last {ℓ} :
    {K : Type 0} {V : Type ℓ} (base base' : K → V) (above : List (K → Option V))
    (own : K → Option V)
    → ((k : K) → base' k ≡ get_or (own k) (base k))
    → (key : K) → answer base' above key ≡ answer base (above ++ own ∷ []) key
unfolding answer
answer-last base base' [] own same key = same key
answer-last base base' (top ∷ above) own same key =
    ap (λ v. get_or (top key) v) (answer-last base base' above own same key)

pub map-last {ℓ} :
    {A : Type 0} {B : Type ℓ} (f : A → B) (l : List A) (x : A)
    → map f l ++ f x ∷ [] ≡ map f (l ++ x ∷ [])
map-last f [] x = refl
map-last f (y ∷ l) x = ap (λ t. f y ∷ t) (map-last f l x)

pub done-inj {ℓ} :
    {E : Type 0} {A : Type ℓ} {x y : A} → ◌≡◌ {A = Outcome E A} (done x) (done y) → x ≡ y
done-inj {x = x} e = ap (λ o. elim o [ fail why ↦ x | done z ↦ z ]) e

pub find_child-IsChild :
    (f : Forest) (child_hash : ℕ) (child : Tree)
    → find_child f child_hash ≡ some child
    → IsChild child f × (get_root_hash child ≡ child_hash)
unfolding find_child
find_child-IsChild Forest.nil child_hash child found = absurd (ground arith)
find_child-IsChild (Forest.cons t rest) child_hash child found =
    elim (Bool-cases (get_root_hash t == child_hash)) [
      | inl e ↦
          let same : t ≡ child = some-inj (
            if-true (get_root_hash t == child_hash) (some t) (find_child rest child_hash) e
              found) in
          (
            subst (λ u. IsChild u (Forest.cons t rest)) same (IsChild.first rest),
            ap get_root_hash (sym same) ∙ (==_iff (get_root_hash t) child_hash).0 e,
          )
      | inr e ↦
          let (there, is) = find_child-IsChild rest child_hash child (
            if-false (get_root_hash t == child_hash) (some t) (find_child rest child_hash) e
              found) in
          (IsChild.later t rest there, is)
    ]

settle-done :
    {E : Type 0} (w w' : World) (s : Shared) (child : Tree) (batch : Outcome E Store)
    → settle w s child batch ≡ done w'
    → (store : Store) × (batch ≡ done store) × (w' ≡ take_over w s child store)
settle-done w w' s child (fail why) r = absurd (ground arith)
settle-done w w' s child (done store) r = (store, refl, sym (done-inj r))

-- The answers of the persisted state once it has taken over a layer.
abbrev pub IsTakenOver : Library → Store → Store → LayerLog → Type 0
IsTakenOver lib store store' log =
    ((addr : ℕ)
      → get_account_value lib store' addr
        ≡ get_or (log.updated_accounts addr) (get_account_value lib store addr))
    × ((addr version key : ℕ)
        → get_storage_by_version store' addr version key
          ≡ get_or (log.updated_storage addr version key)
              (get_storage_by_version store addr version key))

pub prune_child-IsTakenOver :
    (lib : Library) (orders : Orders) (w w' : World) (child : Tree)
    → IsVisited orders (get_layer_log child)
    → IsHandedOver lib (get_account_value lib w.shared.store) (get_layer_log child).updated_accounts
    → prune_child orders w child ≡ done w'
    → IsTakenOver lib w.shared.store w'.shared.store (get_layer_log child)
      × (w'.children ≡ get_children child)
unfolding prune_child get_account_value get_storage_by_version delete_children delete_layer_log
prune_child-IsTakenOver lib orders w w' child visited handed r =
    let log = get_layer_log child in
    let start = record w.shared { archive = deregister w.shared.archive w.height w.root_hash } in
    let s = destruct_others start w.children log.root_hash in
    let written =
      delete_layer_log (delete_children s.store w.height w.root_hash) (incr64 w.height)
        log.root_hash in
    let (store, batch, is) =
      settle-done w w' s child
        (persist_layer_log s.store written log (orders.accounts log) (orders.codes log)) r in
    let (values, versions, slots, codes, gc) =
      destruct_others-SameData w.children start log.root_hash in
    let below : (a : ℕ) → get_account_value lib s.store a ≡ get_account_value lib w.shared.store a =
      λ a. same_accounts lib s.store w.shared.store a values versions in
    let handed' : IsHandedOver lib (get_account_value lib s.store) log.updated_accounts =
      subst (λ b. IsHandedOver lib b log.updated_accounts) (sym (fun_ext below)) handed in
    let answers = λ (a : ℕ).
      persist_layer_log-answers lib s.store written store log (orders.accounts log)
        (orders.codes log) a handed' (visited a) refl batch in
    (
      (
        λ a.
            ap (λ t. get_account_value lib t.shared.store a) is
            ∙ (answers a).0
            ∙ ap (λ v. get_or (log.updated_accounts a) v) (below a),
        λ a v k.
            ap (λ t. get_storage_by_version t.shared.store a v k) is
            ∙ (answers a).1 v k
            ∙ ap (λ m. get_or (log.updated_storage a v k) (get_or (m a v k) 0)) slots,
      ),
      ap (λ t. t.children) is,
    )
