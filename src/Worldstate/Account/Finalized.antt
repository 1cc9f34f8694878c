-- ===== src/Worldstate/Account/Finalized.antt =====
-- worldstate/mutableaccount_impl.go: what an account hands over at the end of a
-- transaction, and its copy.
use teler.Base.{
  ℕ, Bool, false, Option, none, List, Map, empty, update, ◌==◌, if◌then◌else◌, incr64, decr64,
}
use teler.Types.{Library, AccountValue}
use teler.Worldstate.Account.Object.{Account, being_deleted, interpret_version}

-- GetFinalized returns these.
pub record Finalized : Type 0 where
  pub final_state : AccountValue
  pub known_code : Option (List ℕ)
  pub known_code_diff : ℕ → ℕ
  pub known_storage : Map ℕ
  pub overriden : Bool

module _ (lib : Library) where
  open lib use {empty_code_hash}

  unfoldable pub get_finalized : Account → Finalized
  unfolding interpret_version
  get_finalized a =
      if interpret_version a == being_deleted
      then record {
        final_state = record {
          nonce = 0;
          balance = 0;
          code_hash = empty_code_hash;
          dirty_storage = false;
          version = incr64 a.version;
        };
        known_code = none;
        known_code_diff =
            if a.code_hash == empty_code_hash
            then a.known_code_diff
            else update a.known_code_diff a.code_hash (decr64 (a.known_code_diff a.code_hash));
        known_storage = empty;
        overriden = a.overriden;
      }
      else record {
        final_state = record {
          nonce = a.nonce;
          balance = a.balance;
          code_hash = a.code_hash;
          dirty_storage = a.dirty_storage;
          version = a.version;
        };
        known_code = a.known_code;
        known_code_diff = a.known_code_diff;
        known_storage = a.known_storage;
        overriden = a.overriden;
      }

-- Copy: the composite literal gives no `overriden`, so the copy has false there.
unfoldable pub copy : Account → Account
copy a = record a { overriden = false }
