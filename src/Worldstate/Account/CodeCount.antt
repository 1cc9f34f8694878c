-- ===== src/Worldstate/Account/CodeCount.antt =====
-- knownCodeDiff, by which the store counts the accounts that hold a code, through SetCode and its
-- revert.
use teler.Base.{ℕ, ◌^◌, ◌<◌, ◌≡◌, ◌≢◌, some, List, fun_ext, incr64, decr64, arith}
use teler.Types.{Library}
use teler.Worldstate.Account.Object.{Account, Undo, undo}
use teler.Worldstate.Account.Setters.{set_code}

module _ (lib : Library) where
  open lib use {keccak256_hash, empty_code_hash}

  -- Where the counts fit in 64 bits and the new code is not empty, the closure of a SetCode that did
  -- not panic gives back the counts that the account had.
  pub set_code-undo_diff :
      (a : Account) (c : List ℕ) (r : Account × List Undo)
      → ((h : ℕ) → a.known_code_diff h < 2 ^ 64)
      → keccak256_hash c ≢ empty_code_hash
      → set_code lib a c ≡ some r
      → (undo r.1 r.0).known_code_diff ≡ a.known_code_diff
  unfolding set_code undo
  set_code-undo_diff a c r range h e =
      fun_ext λ k. ground (arith, range k, range a.code_hash, range (keccak256_hash c))

  -- After the closure of a SetCode that removed the code, the account has its code hash again, but
  -- the count of this code is one less than before the SetCode, and the count of the empty code is
  -- one more.
  pub set_code-remove_diff :
      (a : Account) (c : List ℕ) (r : Account × List Undo)
      → keccak256_hash c ≡ empty_code_hash
      → a.code_hash ≢ empty_code_hash
      → set_code lib a c ≡ some r
      → ((undo r.1 r.0).known_code_diff a.code_hash ≡ decr64 (a.known_code_diff a.code_hash))
        × ((undo r.1 r.0).known_code_diff empty_code_hash
            ≡ incr64 (a.known_code_diff empty_code_hash))
        × ((undo r.1 r.0).code_hash ≡ a.code_hash)
  unfolding set_code undo
  set_code-remove_diff a c r h n e = ground arith
