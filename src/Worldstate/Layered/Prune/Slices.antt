-- ===== src/Worldstate/Layered/Prune/Slices.antt =====
-- Which layers are to be pruned.
use teler.Base.{
  ℕ, zero, suc, ◌≤◌, ◌<◌, ◌≡◌, refl, ap, some, List, [], ◌∷◌, ◌++◌, length, leb, Bool-cases, ◌⊎◌,
  inl, inr, arith,
}
use teler.Worldstate.Archive.{Archive}
use teler.Worldstate.Layered.Tree.{Entry}
use teler.Worldstate.Layered.Prune.{slice, get_to_be_pruned}

slice-length :
    (l : List ℕ) (n : ℕ)
    → n ≤ length l
    → (taken rest : List ℕ) × (slice l n ≡ some taken) × (length taken ≡ n) × (l ≡ taken ++ rest)
slice-length l zero fits = ([], l, refl, refl, refl)
slice-length [] (suc n) fits = absurd (omega (arith, fits))
slice-length (x ∷ l) (suc n) fits =
    let (taken, rest, is, long, whole) = slice-length l n (omega (arith, fits)) in
    (x ∷ taken, rest, rw (is) refl, ap suc long, ap (λ t. x ∷ t) whole)

-- Where the frequency is at most the number of layers to retain, which is so for the values that the
-- configuration lets through, the slice of HandlePrune is in bounds: what is pruned is the oldest part
-- of the route, nothing while the route is within the layers to retain, and else as many layers as the
-- frequency says.
pub get_to_be_pruned-bounds :
    (archive : Archive Entry) (route : List ℕ)
    → archive.pruning_frequency ≤ archive.max_layer_to_retain
    → (taken rest : List ℕ) × (get_to_be_pruned archive route ≡ some taken)
      × (route ≡ taken ++ rest)
      × (((length route ≤ archive.max_layer_to_retain) × (length taken ≡ 0))
          ⊎ ((archive.max_layer_to_retain < length route)
              × (length taken ≡ archive.pruning_frequency)))
unfolding get_to_be_pruned
get_to_be_pruned-bounds archive route fits =
    elim (Bool-cases (leb (length route) archive.max_layer_to_retain)) [
      | inl e ↦ ([], route, rw (e) refl, refl, inl (ground arith, refl))
      | inr e ↦
          let (taken, rest, is, long, whole) =
            slice-length route archive.pruning_frequency (ground (arith, fits, e)) in
          (taken, rest, rw (e) is, whole, inr (ground arith, long))
    ]
