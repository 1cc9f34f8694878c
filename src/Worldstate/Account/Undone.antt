-- ===== src/Worldstate/Account/Undone.antt =====
-- The closures of the setters, each run on any account that is as its setter left the account.
use teler.Base.{ℕ, ◌≡◌, some, List}
use teler.Types.{Library}
use teler.Worldstate.Account.Object.{Account, Undo, undo}
use teler.Worldstate.Account.Setters.{set_state, self_destruct, create, set_code}
use teler.Worldstate.Account.Reverts.{
  Same, IsSound, Undoes-set_state, UndoesIf-self_destruct, UndoesIf-create, UndoesIf-set_code,
}

-- On a sound account, SetState and then its closure leave an account that answers as before, also
-- where the account was read in between.
set_state-undo :
    (a b : Account) (key val : ℕ)
    → IsSound a
    → Same (set_state a key val).0 b
    → Same a (undo (set_state a key val).1 b)
set_state-undo a b key val s same = Undoes-set_state a key val s b same

-- On a sound account, a SelfDestruct that does not panic and then its closure leave an account that
-- answers as before, also where the account was read in between.
self_destruct-undo :
    (a b : Account) (r : Account × List Undo)
    → IsSound a
    → self_destruct a ≡ some r
    → Same r.0 b
    → Same a (undo r.1 b)
self_destruct-undo a b r s e same = UndoesIf-self_destruct a s r e b same

-- On a sound account, a Create that does not panic and then its closure leave an account that answers
-- as before, also where the account was read in between.
create-undo :
    (lib : Library) (a b : Account) (r : Account × List Undo)
    → IsSound a
    → create lib a ≡ some r
    → Same r.0 b
    → Same a (undo r.1 b)
create-undo lib a b r s e same = UndoesIf-create lib a s r e b same

-- On a sound account, a SetCode that does not panic and then its closure leave an account that answers
-- as before, also where the account was read in between.
set_code-undo :
    (lib : Library) (a b : Account) (code : List ℕ) (r : Account × List Undo)
    → IsSound a
    → set_code lib a code ≡ some r
    → Same r.0 b
    → Same a (undo r.1 b)
set_code-undo lib a b code r s e same = UndoesIf-set_code lib a code s r e b same
