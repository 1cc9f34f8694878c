-- ===== src/Worldstate/Layered.antt =====
-- worldstate/layeredstate_impl.go and worldstate/persistedstate_impl.go: the layers of the blocks
-- that are not yet persisted, each over its parent, and the persisted state under them.
pub mod Reads
pub mod Readers
pub mod Tree
pub mod Prune
pub mod Restart
pub mod Commit
pub mod Samples
mod Tests
use mathlib.Core.List.{Memᴰ}
use teler.Base.{ℕ, Option, none, some, List, [], ◌∷◌, get_or}
use teler.Types.{Library, AccountValue, LayerLog}
use teler.Statestore.{Store, get_account_value, get_storage_by_version}

-- What a chain of layers answers, the youngest first, over the answers of what it stands on.
unfoldable pub answer {ℓ} : {K : Type 0} {V : Type ℓ} → (K → V) → List (K → Option V) → K → V
answer base [] key = base key
answer base (own ∷ below) key = get_or (own key) (answer base below key)
