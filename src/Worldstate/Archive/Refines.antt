-- ===== src/Worldstate/Archive/Refines.antt =====
-- The archive is one map from heights and root hashes to layers, and keeps no empty height.
use teler.Base.{
  ℕ, ◌≡◌, ◌≢◌, ◌↔◌, ◌⊎◌, refl, sym, ap, ◌∙◌, subst, true, false, ◌&&◌, none, some, List, [], ◌∷◌,
  Map, ◌==◌, ==_iff, if◌then◌else◌, Bool-cases, Option-cases, inl, inr, arith,
}
use teler.Worldstate.Archive.{
  Archive, lookup, write, erase, entries, register, put_back, deregister, get_layered, has,
}

module _ {Layer : Type 0} where
  lookup-write :
      (l : List (ℕ × Layer)) (root : ℕ) (layer : Layer) (j : ℕ)
      → lookup (write l root layer) j ≡ (if j == root then some layer else lookup l j)
  unfolding lookup write
  lookup-write [] root layer j = ground arith
  lookup-write (e ∷ l) root layer j = ground (arith, lookup-write l root layer j)

  lookup-erase :
      (l : List (ℕ × Layer)) (root j : ℕ)
      → lookup (erase l root) j ≡ (if j == root then none else lookup l j)
  unfolding lookup erase
  lookup-erase [] root j = ground arith
  lookup-erase (e ∷ l) root j = ground (arith, lookup-erase l root j)

  get_layered-entries :
      (a : Archive Layer) (height root : ℕ)
      → get_layered a height root ≡ lookup (entries (a.states height)) root
  unfolding get_layered lookup
  get_layered-entries a height root = elim (Option-cases (a.states height)) [
    | inl e ↦ rw (e, get_layered) refl
    | inr (l, e) ↦ rw (e, get_layered) refl
  ]

  put_back-entries :
      (m : Map (List (ℕ × Layer))) (height : ℕ) (l : List (ℕ × Layer)) (i : ℕ)
      → entries (put_back m height l i) ≡ (if i == height then l else entries (m i))
  put_back-entries m height [] i = ground arith
  put_back-entries m height (e ∷ l) i = ground arith

  -- After Register the layer is found under its height and root hash, and under any other everything
  -- is as it was.
  pub register-get_layered :
      (a : Archive Layer) (height root : ℕ) (layer : Layer) (i j : ℕ)
      → get_layered (register a height root layer) i j
        ≡ (if i == height && j == root then some layer else get_layered a i j)
  unfolding register
  register-get_layered a height root layer i j = elim (Bool-cases (i == height)) [
    | inl t ↦
        get_layered-entries (register a height root layer) i j
        ∙ rw t (
            lookup-write (entries (a.states height)) root layer j
            ∙ ap (λ o. if j == root then some layer else o)
                (sym (get_layered-entries a height j)
                  ∙ ap (λ h. get_layered a h j) (sym ((==_iff i height).0 t))))
    | inr t ↦
        get_layered-entries (register a height root layer) i j
        ∙ rw t (sym (get_layered-entries a i j))
  ]

  deregister-entries :
      (a : Archive Layer) (height root i : ℕ)
      → entries ((deregister a height root).states i)
        ≡ (if i == height then erase (entries (a.states height)) root else entries (a.states i))
  unfolding deregister erase
  deregister-entries a height root i = elim (Option-cases (a.states height)) [
    | inl e ↦
        let is : deregister a height root ≡ a = rw (e, deregister) refl in
        ap (λ b. entries (b.states i)) is ∙ same_entries e (Bool-cases (i == height))
    | inr (l, e) ↦
        let is : deregister a height root
            ≡ record a { states = put_back a.states height (erase l root) } =
          rw (e, deregister) refl in
        ap (λ b. entries (b.states i)) is
        ∙ put_back-entries a.states height (erase l root) i
        ∙ ap (λ o. if i == height then erase (entries o) root else entries (a.states i)) (sym e)
  ]
    where
      same_entries :
          a.states height ≡ none
          → ((i == height) ≡ true) ⊎ ((i == height) ≡ false)
          → entries (a.states i)
            ≡ (if i == height then erase (entries (a.states height)) root else entries (a.states i))
      same_entries e (inl t) =
          ap (λ h. entries (a.states h)) ((==_iff i height).0 t) ∙ rw (t, e) refl
      same_entries e (inr t) = rw t refl

  -- After Deregister nothing is found under the height and the root hash, and under any other
  -- everything is as it was.
  pub deregister-get_layered :
      (a : Archive Layer) (height root i j : ℕ)
      → get_layered (deregister a height root) i j
        ≡ (if i == height && j == root then none else get_layered a i j)
  deregister-get_layered a height root i j = elim (Bool-cases (i == height)) [
    | inl t ↦
        get_layered-entries (deregister a height root) i j
        ∙ ap (λ l. lookup l j) (deregister-entries a height root i)
        ∙ rw t (
            lookup-erase (entries (a.states height)) root j
            ∙ ap (λ o. if j == root then none else o)
                (sym (get_layered-entries a height j)
                  ∙ ap (λ h. get_layered a h j) (sym ((==_iff i height).0 t))))
    | inr t ↦
        get_layered-entries (deregister a height root) i j
        ∙ ap (λ l. lookup l j) (deregister-entries a height root i)
        ∙ rw t (sym (get_layered-entries a i j))
  ]

  -- No height has an empty map.
  pub record IsTidy (a : Archive Layer) : Type 0 where
    pub tidy : (height : ℕ) → a.states height ≢ some []

  write_some : (l : List (ℕ × Layer)) (root : ℕ) (layer : Layer) → write l root layer ≢ []
  unfolding write
  write_some [] root layer = λ e. cc
  write_some (e ∷ l) root layer = elim (Bool-cases (e.0 == root)) [
    | inl t ↦ rw t (λ e. cc)
    | inr t ↦ rw t (λ e. cc)
  ]

  put_back_tidy :
      (m : Map (List (ℕ × Layer))) (height : ℕ) (l : List (ℕ × Layer)) (i : ℕ)
      → m i ≢ some []
      → put_back m height l i ≢ some []
  put_back_tidy m height [] i ne e = ground arith
  put_back_tidy m height (x ∷ l) i ne e = ground arith

  -- Register and Deregister keep that no height has an empty map.
  pub register-deregister-IsTidy :
      (a : Archive Layer) (height root : ℕ) (layer : Layer)
      → IsTidy a
      → IsTidy (register a height root layer) × IsTidy (deregister a height root)
  unfolding register deregister
  register-deregister-IsTidy a height root layer h = (
    record {
      tidy = λ i e. elim (Bool-cases (i == height)) [
        | inl t ↦
            let is : write (entries (a.states height)) root layer ≡ [] = cc (rw t at e) in
            write_some (entries (a.states height)) root layer is
        | inr t ↦ h.tidy i (rw t at e)
      ];
    },
    elim (Option-cases (a.states height)) [
      | inl e ↦
          let is : deregister a height root ≡ a = rw (e, deregister) refl in subst IsTidy (sym is) h
      | inr (l, e) ↦
          let is : deregister a height root
              ≡ record a { states = put_back a.states height (erase l root) } =
            rw (e, deregister) refl in
          subst IsTidy (sym is)
            (record { tidy = λ i. put_back_tidy a.states height (erase l root) i (h.tidy i) })
    ],
  )

  has-cases :
      (a : Archive Layer) (height root : ℕ)
      → has a height root ≡ elim (get_layered a height root) [ none ↦ false | some layer ↦ true ]
  unfolding has get_layered
  has-cases a height root = elim (Option-cases (a.states height)) [
    | inl e ↦ rw (e, has, get_layered) refl
    | inr (l, e) ↦ rw (e, has, get_layered) refl
  ]

  -- Has says whether GetLayared finds a layer.
  pub has-get_layered :
      (a : Archive Layer) (height root : ℕ)
      → (has a height root ≡ true) ↔ ((layer : Layer) × (get_layered a height root ≡ some layer))
  has-get_layered a height root = elim (Option-cases (get_layered a height root)) [
    | inl e ↦
        let is : has a height root ≡ false = has-cases a height root ∙ rw e refl in
        (λ t. cc, λ (layer, there). cc)
    | inr (layer, e) ↦
        let is : has a height root ≡ true = has-cases a height root ∙ rw e refl in
        (λ t. (layer, e), λ found. is)
  ]
