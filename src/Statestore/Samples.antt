-- ===== src/Statestore/Samples.antt =====
-- A datastore with an account and its code, and a layer log that deletes the account and makes it again.
use mathlib.Core.List.{Memᴰ}
use teler.Base.{
  ℕ, ◌≡◌, ap, true, false, none, some, [], ◌∷◌, empty, put, ◌==◌, if◌then◌else◌, Outcome, fail,
  done, arith,
}
use teler.Types.{AccountValue, LayerLog}
use teler.Worldstate.Samples.{sample_library}
use teler.Statestore.{Store, empty_store, get_account_value}
use teler.Statestore.Persist.{Error}
use teler.Statestore.Accounts.{IsHandedOver}
use teler.Statestore.Codes.{IsCounted}

abbrev pub account : ℕ → AccountValue
account version = record {
  nonce = 1;
  balance = 20;
  code_hash = 104;
  dirty_storage = true;
  version = version;
}

abbrev pub before : Store
before = record {
  persisted = some (6, 60);
  children = λ h r. none;
  layer_logs = λ h r. none;
  account_values = put empty 3 (account 1);
  account_versions = empty;
  storage = λ a v k. none;
  codes = put empty 104 (record { code = 4 ∷ []; count = 2 });
  gc = λ a v. false;
}

abbrev pub sample_log : LayerLog
sample_log = record {
  block_number = 7;
  root_hash = 70;
  updated_accounts = put empty 3 (account 4);
  updated_code_count = λ h. if h == 104 then 1 else 0;
  code_preimage = empty;
  updated_storage = λ a v k. if a == 3 then some 9 else none;
}

abbrev pub after_batch : Outcome Error Store → Store
after_batch (fail why) = empty_store
after_batch (done s) = s

pub put-entry : (x v : AccountValue) (a : ℕ) → put empty 3 x a ≡ some v → (a ≡ 3) × (x ≡ v)
put-entry x v a e = (ground arith, ground arith)

pub sample-IsHandedOver :
    IsHandedOver sample_library (get_account_value sample_library before) (put empty 3 (account 4))
sample-IsHandedOver = record {
  settled =
      λ a v e z. absurd (omega (arith, z, ap (λ u. u.version) (put-entry (account 4) v a e).1));
  deleted =
      λ a v e z. absurd (omega (arith, z, ap (λ u. u.version) (put-entry (account 4) v a e).1));
  absent =
      λ a v e z. absurd (omega (arith, z, ap (λ u. u.version) (put-entry (account 4) v a e).1));
}

pub sample-IsVisited :
    (a : ℕ) (v : AccountValue) → put empty 3 (account 4) a ≡ some v → Memᴰ a (3 ∷ [])
sample-IsVisited a v e = Memᴰ.head (put-entry (account 4) v a e).0

pub before-IsCounted : IsCounted before
before-IsCounted h v e = (λ z. ground arith, ground arith)
