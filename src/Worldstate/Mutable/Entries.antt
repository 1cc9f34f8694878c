-- ===== src/Worldstate/Mutable/Entries.antt =====
-- The entries of DirtyAccounts, compared up to what the accounts keep of their layer's answers.
use teler.Base.{
  ℕ, ◌≡◌, refl, subst, Option, none, some, List, Map, put, delete, inl, inr, Bool-cases, ◌==◌,
  ==_iff, ==_refl, arith,
}
use teler.Worldstate.Account.Object.{Account, Undo, undo}
use teler.Worldstate.Account.Reverts.{Same, IsSound, Undoes}
use teler.Worldstate.Account.Soundness.{Same-refl, Same-trans}
use teler.Worldstate.Mutable.State.{change_dirty}

-- Both maps have no account there, or accounts that answer alike.
abbrev pub SameEntry : Option Account → Option Account → Type 0
SameEntry none none = Unit {0}
SameEntry (some a) (some b) = Same a b
SameEntry _ _ = ⊥

pub SameEntry-refl : (o : Option Account) → SameEntry o o
SameEntry-refl none = tt
SameEntry-refl (some a) = Same-refl a

pub SameEntry-trans : (o p q : Option Account) → SameEntry o p → SameEntry p q → SameEntry o q
SameEntry-trans none none none h k = tt
SameEntry-trans none none (some c) h k = k
SameEntry-trans none (some b) q h k = absurd h
SameEntry-trans (some a) none q h k = absurd h
SameEntry-trans (some a) (some b) none h k = k
SameEntry-trans (some a) (some b) (some c) h k = Same-trans a b c h k

SameEntry-some :
    (a : Account) (o : Option Account)
    → SameEntry (some a) o
    → (c : Account) × (o ≡ some c) × Same a c
SameEntry-some a none h = absurd h
SameEntry-some a (some c) h = (c, refl, h)

pub put-IsSound :
    (m : Map Account) (addr : ℕ) (b : Account)
    → IsSound b
    → ((x : ℕ) (a : Account) → m x ≡ some a → IsSound a)
    → (x : ℕ) (a : Account) → put m addr b x ≡ some a
    → IsSound a
put-IsSound m addr b sb h x a e = elim (Bool-cases (x == addr)) [
  | inl t ↦ let p : b ≡ a = ground arith in subst IsSound p sb
  | inr t ↦ h x a (rw t at e)
]

pub put_self : {V : Type 0} (m : Map V) (x : ℕ) (v : V) → put m x v x ≡ some v
put_self m x v = ground arith

change_dirty_lem :
    (m : Map Account) (addr : ℕ) (us : List Undo) (c : Account)
    → m addr ≡ some c
    → (x : ℕ) → change_dirty m addr us x ≡ put m addr (undo us c) x
change_dirty_lem m addr us c e x = rw (e, change_dirty)

pub change_dirty-SameEntry :
    (m n : Map Account) (addr : ℕ) (a b : Account) (us : List Undo)
    → m addr ≡ some a
    → Undoes a (b, us)
    → ((x : ℕ) → SameEntry (put m addr b x) (n x))
    → (x : ℕ) → SameEntry (m x) (change_dirty n addr us x)
change_dirty-SameEntry m n addr a b us e undoes h x =
    let (c, e', same) = SameEntry-some b (n addr) (rw (put_self m addr b) at (h addr)) in
    elim (Bool-cases (x == addr)) [
      | inl t ↦
          rw ((==_iff x addr).0 t)
            (rw (e, change_dirty_lem n addr us c e', put_self n addr (undo us c)) (undoes c same))
      | inr t ↦ rw (change_dirty_lem n addr us c e' x, t) (rw t at (h x))
    ]

pub delete-SameEntry :
    (m n : Map Account) (addr : ℕ) (a : Account)
    → m addr ≡ none
    → ((x : ℕ) → SameEntry (put m addr a x) (n x))
    → (x : ℕ) → SameEntry (m x) (delete n addr x)
delete-SameEntry m n addr a e h x = elim (Bool-cases (x == addr)) [
  | inl t ↦ rw ((==_iff x addr).0 t) (rw (e, ==_refl addr) tt)
  | inr t ↦ rw t (rw t at (h x))
]

-- Storing what was read of an account.
pub put-SameEntry :
    (m : Map Account) (addr : ℕ) (a b : Account)
    → m addr ≡ some a
    → Same a b
    → (x : ℕ) → SameEntry (m x) (put m addr b x)
put-SameEntry m addr a b e same x = elim (Bool-cases (x == addr)) [
  | inl t ↦ rw ((==_iff x addr).0 t) (rw (e, ==_refl addr) same)
  | inr t ↦ rw t (SameEntry-refl (m x))
]
