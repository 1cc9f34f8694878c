-- ===== src/Worldstate/Mutable/Initial.antt =====
-- The state at the beginning of a block has the invariants that the operations keep.
use teler.Base.{ℕ, ◌+◌, ◌*◌, ◌/◌, ◌%◌, ◌^◌, ◌<◌, ◌≡◌, refl, false}
use teler.Worldstate.Layer.{Layer}
use teler.Worldstate.Account.Object.{new_mutable_account}
use teler.Worldstate.Committed.{account_value, get_mutable_account, new_temp_committed}
use teler.Worldstate.Mutable.State.{new_mutable_world_state}
use teler.Worldstate.Mutable.Reverts.{IsSoundState}
use teler.Worldstate.Mutable.Calls.{IsFresh}

-- The accounts of a layer have room in their lives, and those that do not exist have no storage.
pub record IsLayer (parent : Layer) : Type 0 where
  pub room : (a : ℕ) → 3 * ((parent.get_account_value a).version / 3) + 3 < 2 ^ 64
  pub bare :
      (a : ℕ)
      → (parent.get_account_value a).version % 3 ≡ 0
      → (parent.get_account_value a).dirty_storage ≡ false

pub new_mutable_world_state-IsSoundState :
    (parent : Layer) (new_height : ℕ)
    → IsLayer parent
    → IsFresh (new_mutable_world_state parent new_height)
      × IsSoundState (new_mutable_world_state parent new_height)
unfolding new_mutable_world_state new_temp_committed get_mutable_account account_value
    new_mutable_account
new_mutable_world_state-IsSoundState parent new_height l = (
  λ i le. tt,
  record {
    dirty = λ addr a e. cc;
    loads = λ addr. record { room = l.room addr; bare = l.bare addr; clean = λ h key. refl };
  },
)
