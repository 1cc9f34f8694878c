-- ===== src/Worldstate/Layered/Reads.antt =====
-- worldstate/layeredstate_impl.go: GetAccountValue, GetCodeByHash and GetStorageByVersion of a layer,
-- through the caches of the layers. The three differ in the map of the layer log that they look into
-- and in the cache; here the map and the cache are parts of a level. The caches of
-- github.com/hashicorp/golang-lru are a parameter.
use mathlib.Core.List.{map}
use teler.Base.{
  ◌≡◌, refl, sym, ap, ◌∙◌, Bool, true, false, Option, none, some, List, [], ◌∷◌, ◌⊎◌, inl, inr,
}
use teler.Worldstate.Layered.{answer}

-- lru.Cache with Get, which also counts the use, and Add.
pub record Lru (K V : Type 0) : Type 1 where
  pub Cache : Type 0
  pub get : Cache → K → Option V
  pub use_of : Cache → K → Cache
  pub add : Cache → K → V → Cache

-- A cache has what was added to it: a use adds nothing, and Add adds one entry.
pub record IsLru {K V : Type 0} (lru : Lru K V) : Type 0 where
  pub touched :
      (c : lru.Cache) (k j : K) (v : V) → lru.get (lru.use_of c k) j ≡ some v → lru.get c j ≡ some v
  pub added :
      (c : lru.Cache) (k j : K) (v w : V)
      → lru.get (lru.add c k v) j ≡ some w
      → ((j ≡ k) × (w ≡ v)) ⊎ (lru.get c j ≡ some w)

module _ {K V : Type 0} (lru : Lru K V) where
  -- A layer, as one of the three readers sees it.
  pub record Level : Type 0 where
    pub own : K → Option V
    pub cached : lru.Cache

  -- The answer, and the levels as the call leaves them.
  pub record Read : Type 0 where
    pub value : V
    pub levels : List Level

  abbrev pub remember : Bool → lru.Cache → K → V → lru.Cache
  remember true cached key value = lru.add cached key value
  remember false cached key value = cached

  -- A cache was asked: what it had, or else what the parent answers.
  abbrev pub through : Bool → Level → List Level → K → Option V → Read → Read
  through require_cache level below key (some value) parent = record {
    value = value;
    levels = record level { cached = lru.use_of level.cached key } ∷ below;
  }
  through require_cache level below key none parent = record {
    value = parent.value;
    levels =
        record level {
          cached = remember require_cache (lru.use_of level.cached key) key parent.value;
        }
        ∷ parent.levels;
  }

  abbrev pub look : Level → List Level → Option V → Read → Read
  look level below (some value) other = record { value = value; levels = level ∷ below }
  look level below none other = other

  -- The persisted state at the end of the chain is `base`.
  unfoldable pub read : Bool → (K → V) → List Level → K → Read
  read require_cache base [] key = record { value = base key; levels = [] }
  read require_cache base (level ∷ below) key =
      let parent = read false base below key in
      look level below (level.own key)
        (through require_cache level below key (lru.get level.cached key) parent)

  abbrev pub owns : List Level → List (K → Option V)
  owns levels = map (λ level. level.own) levels

  -- What a cache has is what the layers below answer.
  abbrev pub IsSoundAt : (K → V) → Level → List Level → Type 0
  IsSoundAt base level below =
      (key : K) (value : V)
      → lru.get level.cached key ≡ some value
      → value ≡ answer base (owns below) key

  pub data IsSoundChain (base : K → V) : List Level → Type 0 where
    bottom : IsSoundChain base []
    layer :
        (level : Level) (below : List Level)
        → IsSoundAt base level below
        → IsSoundChain base below
        → IsSoundChain base (level ∷ below)

module _ {K V : Type 0} (lru : Lru K V) (laws : IsLru lru) (base : K → V) where
  -- A use of the cache, and an entry for what the layers below answer, keep it sound.
  touched-IsSoundAt :
      (level : Level lru) (below below' : List (Level lru)) (key : K)
      → owns lru below' ≡ owns lru below
      → IsSoundAt lru base level below
      → IsSoundAt lru base (record level { cached = lru.use_of level.cached key }) below'
  touched-IsSoundAt level below below' key same sound j value found =
      sound j value (laws.touched level.cached key j value found)
      ∙ ap (λ o. answer base o j) (sym same)

  remembered-IsSoundAt :
      (require_cache : Bool) (level : Level lru) (below : List (Level lru)) (key : K) (value : V)
      → value ≡ answer base (owns lru below) key
      → IsSoundAt lru base level below
      → IsSoundAt lru base
          (record level { cached = remember lru require_cache level.cached key value })
          below
  remembered-IsSoundAt false level below key value is sound = sound
  remembered-IsSoundAt true level below key value is sound = λ j w found.
      elim (laws.added level.cached key j value w found) [
        | inl (j_is, w_is) ↦ w_is ∙ is ∙ ap (answer base (owns lru below)) (sym j_is)
        | inr before ↦ sound j w before
      ]

  -- What a call gives: the answer of the layer logs, and sound caches over the same layer logs.
  pub record IsRead (levels : List (Level lru)) (key : K) (r : Read lru) : Type 0 where
    pub right : r.value ≡ answer base (owns lru levels) key
    pub same : owns lru r.levels ≡ owns lru levels
    pub sound : IsSoundChain lru base r.levels

  look-IsRead :
      (require_cache : Bool) (level : Level lru) (below : List (Level lru)) (key : K)
      (own hit : Option V) (parent : Read lru)
      → level.own key ≡ own
      → lru.get level.cached key ≡ hit
      → IsSoundAt lru base level below
      → IsSoundChain lru base below
      → IsRead below key parent
      → IsRead
          (level ∷ below)
          key
          (look lru level below own (through lru require_cache level below key hit parent))
  unfolding answer
  look-IsRead require_cache level below key (some v) hit parent own_is hit_is at chain p = record {
    right = rw (own_is) refl;
    same = refl;
    sound = IsSoundChain.layer level below at chain;
  }
  look-IsRead require_cache level below key none (some v) parent own_is hit_is at chain p = record {
    right = at key v hit_is ∙ rw (own_is) refl;
    same = refl;
    sound =
        IsSoundChain.layer (record level { cached = lru.use_of level.cached key }) below
          (touched-IsSoundAt level below below key refl at) chain;
  }
  look-IsRead require_cache level below key none none parent own_is hit_is at chain p = record {
    right = p.right ∙ rw (own_is) refl;
    same = ap (λ o. level.own ∷ o) p.same;
    sound =
        IsSoundChain.layer
          (record level {
            cached = remember lru require_cache (lru.use_of level.cached key) key parent.value;
          })
          parent.levels
          (remembered-IsSoundAt require_cache
            (record level { cached = lru.use_of level.cached key }) parent.levels key parent.value
            (p.right ∙ ap (λ o. answer base o key) (sym p.same))
            (touched-IsSoundAt level below parent.levels key p.same at))
          p.sound;
  }

  -- A call of a reader, with the entry of the cache or without, answers what the layer logs and the
  -- persisted state under them say, where what the caches have is what the layers below answer; and
  -- it leaves the layer logs as they were and the caches right again.
  pub read-IsRead :
      (require_cache : Bool) (levels : List (Level lru)) (key : K)
      → IsSoundChain lru base levels
      → IsRead levels key (read lru require_cache base levels key)
  unfolding read answer
  read-IsRead require_cache [] key chain = record {
    right = refl;
    same = refl;
    sound = IsSoundChain.bottom;
  }
  read-IsRead require_cache (level ∷ below) key (IsSoundChain.layer _ _ at chain) =
      look-IsRead require_cache level below key (level.own key) (lru.get level.cached key)
        (read lru false base below key) refl refl at chain (read-IsRead false below key chain)
