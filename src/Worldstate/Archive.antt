-- ===== src/Worldstate/Archive.antt =====
-- worldstate/statearchive_impl.go: the layers that are in memory, by height and root hash. A layer is
-- a value of a parameter type. The lock makes each method one step.
pub mod Refines
mod Tests
use teler.Base.{
  ℕ, Bool, true, false, Option, none, some, List, [], ◌∷◌, Map, empty, put, delete, ◌==◌,
  if◌then◌else◌,
}

-- layeredWorldStateArchiveImpl. The map of a height is measured, so it is a list of its entries.
pub record Archive (Layer : Type 0) : Type 0 where
  pub max_layer_to_retain : ℕ
  pub pruning_frequency : ℕ
  pub states : Map (List (ℕ × Layer))

module _ {Layer : Type 0} where
  -- hashMap[root]
  unfoldable pub lookup : List (ℕ × Layer) → ℕ → Option Layer
  lookup [] root = none
  lookup (e ∷ rest) root = let later = lookup rest root in if e.0 == root then some e.1 else later

  -- hashMap[root] = worldState
  unfoldable pub write : List (ℕ × Layer) → ℕ → Layer → List (ℕ × Layer)
  write [] root layer = (root, layer) ∷ []
  write (e ∷ rest) root layer =
      let later = write rest root layer in if e.0 == root then (root, layer) ∷ rest else e ∷ later

  -- delete(hashMap, root)
  unfoldable pub erase : List (ℕ × Layer) → ℕ → List (ℕ × Layer)
  erase [] root = []
  erase (e ∷ rest) root = let later = erase rest root in if e.0 == root then later else e ∷ later

  -- NewLayeredWorldStateArchiveImpl, before the persisted state registers itself.
  unfoldable pub new_archive : ℕ → ℕ → Archive Layer
  new_archive max_layer_to_retain pruning_frequency = record {
    max_layer_to_retain = max_layer_to_retain;
    pruning_frequency = pruning_frequency;
    states = empty;
  }

  unfoldable pub set_max_layer_to_retain : Archive Layer → ℕ → Archive Layer
  set_max_layer_to_retain a n = record a { max_layer_to_retain = n }

  unfoldable pub set_pruning_frequency : Archive Layer → ℕ → Archive Layer
  set_pruning_frequency a n = record a { pruning_frequency = n }

  abbrev pub entries : Option (List (ℕ × Layer)) → List (ℕ × Layer)
  entries none = []
  entries (some hash_map) = hash_map

  -- Register
  unfoldable pub register : Archive Layer → ℕ → ℕ → Layer → Archive Layer
  unfolding write
  register a height root layer = record a {
    states = put a.states height (write (entries (a.states height)) root layer);
  }

  -- A height whose map is empty goes.
  abbrev pub put_back : Map (List (ℕ × Layer)) → ℕ → List (ℕ × Layer) → Map (List (ℕ × Layer))
  put_back states height [] = delete states height
  put_back states height (e ∷ rest) = put states height (e ∷ rest)

  -- Deregister
  unfoldable pub deregister : Archive Layer → ℕ → ℕ → Archive Layer
  unfolding erase
  deregister a height root = elim (a.states height) [
    | none ↦ a
    | some hash_map ↦ record a { states = put_back a.states height (erase hash_map root) }
  ]

  -- GetLayared; `none` is one of its two errors.
  unfoldable pub get_layered : Archive Layer → ℕ → ℕ → Option Layer
  unfolding lookup
  get_layered a height root = elim (a.states height) [
    | none ↦ none
    | some hash_map ↦ lookup hash_map root
  ]

  -- Has
  unfoldable pub has : Archive Layer → ℕ → ℕ → Bool
  unfolding lookup
  has a height root = elim (a.states height) [
    | none ↦ false
    | some hash_map ↦ elim (lookup hash_map root) [ none ↦ false | some layer ↦ true ]
  ]
