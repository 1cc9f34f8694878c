-- ===== src/Base/Outcomes.antt =====
-- A step that may end with an error, over the errors of a component.
use Prim.Native.Nat.{ℕ}
use mathlib.Core.Path.{◌≡◌, refl, sym, ap, ◌∙◌, subst}
use mathlib.Core.Logic.{◌≢◌, ◌⊎◌, inl, inr}
use mathlib.Core.List.{List, [], ◌∷◌, Memᴰ}
use mathlib.Core.List.Memᴰ
use native.Mathlib.Omega.{arith}
use teler.Base.Tests.{◌==◌, ==_iff, Bool-cases}

pub data Outcome {ℓ} (E : Type 0) (V : Type ℓ) : Type ℓ where
  fail : E → Outcome E V
  done : V → Outcome E V

-- A step that does not fail is done.
pub done-otherwise {ℓ} :
    {E : Type 0} {V : Type ℓ} (step : Outcome E V)
    → ((why : E) → step ≢ fail why)
    → (val : V) × (step ≡ done val)
done-otherwise (fail why) never = absurd (never why refl)
done-otherwise (done val) never = (val, refl)

module _ {ℓ κ} {E : Type 0} {V : Type ℓ} {W : Type κ} where
  -- The next step, unless this one failed.
  infixl 5 ◌and_then◌
  abbrev pub ◌and_then◌ : Outcome E V → (V → Outcome E W) → Outcome E W
  fail why and_then next = fail why
  done val and_then next = next val

  -- A call that came to its end went through each of its steps.
  pub and_then-eq-done :
      (first : Outcome E V) (next : V → Outcome E W) {out : W}
      → (first and_then next) ≡ done out
      → (val : V) × (first ≡ done val) × (next val ≡ done out)
  and_then-eq-done (fail why) next returned = cc
  and_then-eq-done (done val) next returned = (val, refl, returned)

  pub and_then-done :
      {first : Outcome E V} (next : V → Outcome E W) {val : V}
      → first ≡ done val
      → (first and_then next) ≡ next val
  and_then-done next step = ap (λ r. r and_then next) step

-- for key := range m, in the order of the list.
abbrev pub for_each {ℓ} :
    {E : Type 0} {S : Type ℓ} → (S → ℕ → Outcome E S) → List ℕ → S → Outcome E S
for_each step [] s = done s
for_each step (key ∷ rest) s = step s key and_then for_each step rest

module _ {ℓ} {E : Type 0} {S : Type ℓ} (step : S → ℕ → Outcome E S) where
  pub for_each-total :
      ((s : S) (key : ℕ) → (t : S) × (step s key ≡ done t))
      → (order : List ℕ) (s : S) → (t : S) × (for_each step order s ≡ done t)
  for_each-total total [] s = (s, refl)
  for_each-total total (key ∷ rest) s =
      let (v, first) = total s key in
      let (t, later) = for_each-total total rest v in
      (t, and_then-done (for_each step rest) first ∙ later)

  -- What each round keeps.
  pub for_each-Kept :
      (Kept : S → Type 0)
      → ((s t : S) (key : ℕ) → step s key ≡ done t → Kept s → Kept t)
      → (order : List ℕ) (s t : S) → for_each step order s ≡ done t
      → Kept s
      → Kept t
  for_each-Kept Kept keeps [] s t r kept =
      subst (λ o. elim o [ fail why ↦ Kept t | done u ↦ Kept u ]) r kept
  for_each-Kept Kept keeps (key ∷ rest) s t r kept =
      let (v, first, later) = and_then-eq-done (step s key) (for_each step rest) r in
      for_each-Kept Kept keeps rest v t later (keeps s v key first kept)

-- What is read of the state at a key: rounds of other keys leave it alone, and the key's own round
-- makes it `After`, from what it was before the loop or from what an earlier round of the key left.
module _ {ℓ κ} {E : Type 0} {S : Type ℓ} {V : Type κ} (step : S → ℕ → Outcome E S) (key : ℕ)
    (read : S → V) (old : V) (After : V → Type 0)
    (here : (s t : S) → (read s ≡ old) ⊎ After (read s) → step s key ≡ done t → After (read t))
    (others : (s t : S) (other : ℕ) → other ≢ key → step s other ≡ done t → read t ≡ read s) where
  pub for_each-After :
      (order : List ℕ) (s t : S) → After (read s) → for_each step order s ≡ done t → After (read t)
  for_each-After order s t was r = for_each-Kept step (λ u. After (read u)) stays order s t r was
    where
      stays : (u w : S) (k : ℕ) → step u k ≡ done w → After (read u) → After (read w)
      stays u w k first a = elim (Bool-cases (k == key)) [
        | inl e ↦ here u w (inr a) (subst (λ j. step u j ≡ done w) ((==_iff k key).0 e) first)
        | inr e ↦ subst After (sym (others u w k (λ same. ground arith) first)) a
      ]

  pub for_each-Reached :
      (order : List ℕ) (s t : S)
      → Memᴰ key order
      → read s ≡ old
      → for_each step order s ≡ done t
      → After (read t)
  for_each-Reached [] s t m was r = absurd (Memᴰ.not-nil m)
  for_each-Reached (k ∷ rest) s t m was r =
      let (v, first, later) = and_then-eq-done (step s k) (for_each step rest) r in
      elim (Bool-cases (k == key)) [
        | inl e ↦
            for_each-After rest v t
              (here s v (inl was) (subst (λ j. step s j ≡ done v) ((==_iff k key).0 e) first)) later
        | inr e ↦ elim (Memᴰ.cases_cons m) [
          | inl same ↦ absurd (ground arith)
          | inr there ↦
              for_each-Reached rest v t there (others s v k (λ same. ground arith) first ∙ was)
                later
        ]
      ]
