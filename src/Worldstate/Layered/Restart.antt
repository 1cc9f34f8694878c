-- ===== src/Worldstate/Layered/Restart.antt =====
-- newPersistedWorldState and newLayeredWorldState: the tree of layers, read from the datastore as the
-- node starts. Go recurses along the children that the datastore lists; here the recursion is on fuel,
-- and the depth of the tree that is stored is enough.
mod Tests
use teler.Base.{
  ℕ, zero, suc, ◌+◌, ◌≤◌, ◌≡◌, refl, sym, ap, ◌∙◌, subst, Bool, true, false, Option, none, some,
  List, [], ◌∷◌, ◌==◌, leb, if◌then◌else◌, ◌>>=◌, >>=-some, incr64, arith, Bool-cases, inl, inr,
}
use teler.Types.{LayerLog}
use teler.Statestore.{Store, get_persisted_height, get_children, get_layer_log}
use teler.Worldstate.Archive.{Archive, register}
use teler.Worldstate.Layered.Tree.{Tree, Forest, Entry, Shared, World, root_hashes, get_root_hash}

-- The loop over childrenHashes.
unfoldable pub each_child :
    (Archive Entry → ℕ → Option (Archive Entry × Tree))
    → Archive Entry
    → List ℕ
    → Option (Archive Entry × Forest)
each_child load archive [] = some (archive, Forest.nil)
each_child load archive (child_hash ∷ rest) = load archive child_hash >>= λ r.
    each_child load r.0 rest >>= λ q. some (q.0, Forest.cons r.1 q.1)

-- newLayeredWorldState, with the archive as it leaves it; `none` is an error, or no fuel.
unfoldable pub new_layered_world_state :
    ℕ → Store → ℕ → Archive Entry → ℕ → Option (Archive Entry × Tree)
unfolding each_child
new_layered_world_state zero s height archive root_hash = none
new_layered_world_state (suc fuel) s height archive root_hash =
    get_layer_log s height root_hash >>= λ log. get_children s height root_hash >>= λ hashes.
    each_child (new_layered_world_state fuel s (incr64 height))
      (register archive height root_hash (Entry.layered log)) hashes
    >>= λ q. some (q.0, Tree.layer log q.1)

-- The persisted state that a start leaves.
abbrev pub started : Store → ℕ × ℕ → Archive Entry × Forest → World
started s at q = record {
  shared = record { store = s; archive = q.0 };
  height = at.0;
  root_hash = at.1;
  children = q.1;
}

-- newPersistedWorldState
unfoldable pub new_persisted_world_state : ℕ → Store → Archive Entry → Option World
unfolding new_layered_world_state
new_persisted_world_state fuel s archive = get_persisted_height s >>= λ p.
    get_children s p.0 p.1 >>= λ hashes.
    each_child (new_layered_world_state fuel s (incr64 p.0))
      (register archive p.0 p.1 Entry.persisted) hashes
    >>= λ q. some (started s p q)

abbrev max : ℕ → ℕ → ℕ
max a b = if leb a b then b else a

unfoldable mutual
  pub depth : Tree → ℕ
  depth (Tree.layer log children) = suc (depth_all children)

  pub depth_all : Forest → ℕ
  depth_all Forest.nil = 0
  depth_all (Forest.cons t rest) = max (depth t) (depth_all rest)

-- The archive with every layer of a tree.
unfoldable mutual
  pub register_tree : Archive Entry → ℕ → Tree → Archive Entry
  register_tree archive height (Tree.layer log children) =
      register_all (register archive height log.root_hash (Entry.layered log)) (incr64 height)
        children

  pub register_all : Archive Entry → ℕ → Forest → Archive Entry
  register_all archive height Forest.nil = archive
  register_all archive height (Forest.cons t rest) =
      register_all (register_tree archive height t) height rest

-- The datastore has the layers of a tree, from a height up.
mutual
  pub data IsStored (s : Store) : ℕ → Tree → Type 0 where
    layer :
        (height : ℕ) (log : LayerLog) (children : Forest)
        → get_layer_log s height log.root_hash ≡ some log
        → get_children s height log.root_hash ≡ some (root_hashes children)
        → IsStoredForest s (incr64 height) children
        → IsStored s height (Tree.layer log children)

  pub data IsStoredForest (s : Store) : ℕ → Forest → Type 0 where
    nil : (height : ℕ) → IsStoredForest s height Forest.nil
    cons :
        (height : ℕ) (t : Tree) (rest : Forest)
        → IsStored s height t
        → IsStoredForest s height rest
        → IsStoredForest s height (Forest.cons t rest)

first_fits : (a b n : ℕ) → max a b ≤ n → a ≤ n
first_fits a b n fits = ground (arith, fits)

rest_fits : (a b n : ℕ) → max a b ≤ n → b ≤ n
rest_fits a b n fits = ground (arith, fits)

mutual
  unfolding new_layered_world_state depth register_tree

  pub load-IsStored :
      (s : Store) (fuel height : ℕ) (archive : Archive Entry) (t : Tree)
      → IsStored s height t
      → depth t ≤ fuel
      → new_layered_world_state fuel s height archive (get_root_hash t)
        ≡ some (register_tree archive height t, t)
  load-IsStored s zero height archive _ (IsStored.layer _ log children log_is children_is below)
        enough =
      absurd (omega (arith, enough))
  load-IsStored s (suc fuel) height archive _
        (IsStored.layer _ log children log_is children_is below) enough =
      >>=-some
        (λ l. get_children s height log.root_hash >>= λ hashes.
          each_child (new_layered_world_state fuel s (incr64 height))
            (register archive height log.root_hash (Entry.layered l)) hashes
          >>= λ q. some (q.0, Tree.layer l q.1))
        log_is
      ∙ >>=-some
          (λ hashes.
            each_child (new_layered_world_state fuel s (incr64 height))
              (register archive height log.root_hash (Entry.layered log)) hashes
            >>= λ q. some (q.0, Tree.layer log q.1))
          children_is
      ∙ >>=-some (λ q. some (q.0, Tree.layer log q.1))
          (load_all-IsStored s fuel (incr64 height)
            (register archive height log.root_hash (Entry.layered log)) children below
            (omega (arith, enough)))

  load_all-IsStored :
      (s : Store) (fuel height : ℕ) (archive : Archive Entry) (f : Forest)
      → IsStoredForest s height f
      → depth_all f ≤ fuel
      → each_child (new_layered_world_state fuel s height) archive (root_hashes f)
        ≡ some (register_all archive height f, f)
  load_all-IsStored s fuel height archive _ (IsStoredForest.nil _) enough = refl
  load_all-IsStored s fuel height archive _ (IsStoredForest.cons _ t rest at later) enough =
      >>=-some
        (λ r. each_child (new_layered_world_state fuel s height) r.0 (root_hashes rest) >>= λ q.
          some (q.0, Forest.cons r.1 q.1))
        (load-IsStored s fuel height archive t at
          (first_fits (depth t) (depth_all rest) fuel enough))
      ∙ >>=-some (λ q. some (q.0, Forest.cons t q.1))
          (load_all-IsStored s fuel height (register_tree archive height t) rest later
            (rest_fits (depth t) (depth_all rest) fuel enough))

-- What a start gives, where the datastore has the persisted state and a tree of layers over it, and the
-- fuel is the depth of the tree at least: the persisted state at its height, with that tree under it,
-- and with every layer of it registered.
pub new_persisted_world_state-IsStored :
    (s : Store) (fuel height root_hash : ℕ) (archive : Archive Entry) (children : Forest)
    → get_persisted_height s ≡ some (height, root_hash)
    → get_children s height root_hash ≡ some (root_hashes children)
    → IsStoredForest s (incr64 height) children
    → depth_all children ≤ fuel
    → new_persisted_world_state fuel s archive
      ≡ some (record {
        shared = record {
          store = s;
          archive =
              register_all
                (register archive height root_hash Entry.persisted)
                (incr64 height)
                children;
        };
        height = height;
        root_hash = root_hash;
        children = children;
      })
unfolding new_persisted_world_state
new_persisted_world_state-IsStored s fuel height root_hash archive children at_is children_is stored
      enough =
    let at : ℕ × ℕ = (height, root_hash) in
    let top = register archive height root_hash Entry.persisted in
    >>=-some
      (λ p. get_children s p.0 p.1 >>= λ hashes.
        each_child (new_layered_world_state fuel s (incr64 p.0))
          (register archive p.0 p.1 Entry.persisted) hashes
        >>= λ q. some (started s p q))
      at_is
    ∙ >>=-some
        (λ hashes. each_child (new_layered_world_state fuel s (incr64 height)) top hashes >>= λ q.
          some (started s at q))
        children_is
    ∙ >>=-some (λ q. some (started s at q))
        (load_all-IsStored s fuel (incr64 height) top children stored enough)
