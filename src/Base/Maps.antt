-- ===== src/Base/Maps.antt =====
-- Go's maps with keys that are numbers: an entry is there or not, and a write replaces it.
use Prim.Native.Nat.{ℕ}
use mathlib.Core.Path.{◌≡◌, fun_ext}
use mathlib.Core.Option.{Option, none, some}
use native.Mathlib.Omega.{arith}
use teler.Base.Tests.{◌==◌, if◌then◌else◌}

abbrev pub Map {ℓ} : Type ℓ → Type ℓ
Map V = ℕ → Option V

module _ {ℓ} {V : Type ℓ} where
  -- make(map[K]V)
  abbrev pub empty : Map V
  empty k = none

  -- m[k] = v
  abbrev pub put : Map V → ℕ → V → Map V
  put m k v j = if j == k then some v else m j

  -- delete(m, k)
  abbrev pub delete : Map V → ℕ → Map V
  delete m k j = if j == k then none else m j

  -- m[k], with the zero value of the type where there is no entry
  abbrev pub get_or : Option V → V → V
  get_or none d = d
  get_or (some v) d = v

  pub delete-put : (m : Map V) (k : ℕ) (v : V) → m k ≡ none → delete (put m k v) k ≡ m
  delete-put m k v h = fun_ext λ j. ground arith

  pub put-put : (m : Map V) (k : ℕ) (v w : V) → m k ≡ some w → put (put m k v) k w ≡ m
  put-put m k v w h = fun_ext λ j. ground arith

-- A total function with one value changed: a map whose missing entries read as a default.
abbrev pub update {ℓ} : {V : Type ℓ} → (ℕ → V) → ℕ → V → ℕ → V
update f k v j = if j == k then v else f j
