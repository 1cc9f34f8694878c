-- ===== src/Worldstate/Samples.antt =====
-- A library, a layer, accounts and states for the examples.
use teler.Base.{ℕ, ◌+◌, refl, true, false, none, some, List, [], ◌∷◌, empty, sub64, add64, arith}
use teler.Types.{Library}
use teler.Worldstate.Layer.{Layer}
use teler.Worldstate.Account.Object.{Account}
use teler.Worldstate.Account.Reverts.{IsSound}
use teler.Worldstate.Mutable.State.{State, new_mutable_world_state}
use teler.Worldstate.Mutable.Calls.{IsFresh}
use teler.Worldstate.Mutable.Reverts.{IsSoundState}
use teler.Worldstate.Mutable.Initial.{IsLayer, new_mutable_world_state-IsSoundState}

abbrev pub sample_hash : List ℕ → ℕ
sample_hash [] = 7
sample_hash (x ∷ xs) = x + 100

abbrev pub sample_library : Library
sample_library = record {
  keccak256_hash = sample_hash;
  empty_code_hash = 7;
  empty_root_hash = 8;
  uint256_add = add64;
  uint256_sub = sub64;
  uint256_is_negative = λ x. false;
  is_eip158 = λ h. true;
}

-- Every account exists, with balance 10 and storage.
abbrev pub sample_layer : Layer
sample_layer = record {
  get_account_value =
      λ a. record { nonce = 5; balance = 10; code_hash = 7; dirty_storage = true; version = 1 };
  get_code_by_hash = λ h. [];
  get_storage_by_version = λ a v k. k + 1;
}

pub sample_layer-IsLayer : IsLayer sample_layer
sample_layer-IsLayer = record { room = λ a. omega arith; bare = λ a e. absurd (omega arith) }

abbrev pub sample_account : Account
sample_account = record {
  parent = sample_layer;
  addr = 3;
  nonce = 5;
  balance = 10;
  code_hash = 7;
  dirty_storage = true;
  version = 1;
  known_code = none;
  known_code_diff = λ h. 0;
  overriden = false;
  known_storage = empty;
}

pub sample_account-IsSound : IsSound sample_account
sample_account-IsSound = record {
  room = omega arith;
  bare = λ e. absurd (omega arith);
  clean = λ h key. refl;
}

-- The account after its SelfDestruct.
abbrev pub dead_account : Account
dead_account = record sample_account { balance = 0; version = 2 }

pub dead_account-IsSound : IsSound dead_account
dead_account-IsSound = record {
  room = omega arith;
  bare = λ e. absurd (omega arith);
  clean = λ h key. refl;
}

-- An account with code, whose hash is 109.
abbrev pub contract_account : Account
contract_account = record sample_account { code_hash = 109; known_code = some (9 ∷ []) }

abbrev pub sample_state : State
sample_state = new_mutable_world_state sample_layer 20

pub sample_state-IsFresh : IsFresh sample_state
sample_state-IsFresh = (new_mutable_world_state-IsSoundState sample_layer 20 sample_layer-IsLayer).0

pub sample_state-IsSoundState : IsSoundState sample_state
sample_state-IsSoundState =
    (new_mutable_world_state-IsSoundState sample_layer 20 sample_layer-IsLayer).1
