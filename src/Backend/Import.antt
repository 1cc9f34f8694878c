-- ===== src/Backend/Import.antt =====
-- ImportBlock on its error paths, and what a block went through that was imported.
use teler.Base.{ℕ, and_then-eq-done}
use teler.Base.{
  ◌≤◌, ◌≡◌, refl, sym, ap, ◌∙◌, subst, Bool, true, false, Option, none, some, List, Outcome, fail,
  done, ◌and_then◌, if◌then◌else◌, if-true, if-false, Bool-cases, Option-cases, ◌⊎◌, inl, inr,
  arith, ltb,
}
use teler.Blockchain.Chain.{Block, Receipt, Chain, Result, has_block, get_block_by_hash}
use teler.Blockchain.Add.{add_block, with_block}
use teler.Blockchain.Add.Lookup.{add_block-ok}
use teler.Blockchain.Head.{set_head}
use teler.Backend.{
  Committing, Execution, Commits, Backend, Error, orelse, checked, execute, finalize, headed,
  previous, adopt, import_block,
}

-- A chain of steps that failed: at the first step, or later.
and_then-eq-fail {ℓ κ} :
    {E : Type 0} {V : Type ℓ} {W : Type κ} (first : Outcome E V) (next : V → Outcome E W) {why : E}
    → (first and_then next) ≡ fail why
    → (first ≡ fail why) ⊎ ((val : V) × (first ≡ done val) × (next val ≡ fail why))
and_then-eq-fail (fail why) next r = inl (ground arith)
and_then-eq-fail (done val) next r = inr (val, refl, r)

ok-inj {ℓ} : {A : Type ℓ} {x y : A} → Result.ok x ≡ Result.ok y → x ≡ y
ok-inj {x = x} e = ap (λ r. elim r [ Result.err why ↦ x | Result.ok v ↦ v ]) e

-- A block that is not below the tail is there once it has been added.
pub add_block-has_block :
    (commits : Bool) (c d : Chain) (blk : Block) (receipts : List Receipt)
    → c.tail ≤ blk.number
    → add_block commits c blk receipts ≡ Result.ok d
    → has_block d blk.hash ≡ true
unfolding add_block with_block has_block
add_block-has_block commits c d blk receipts above r = elim (Option-cases (c.blocks blk.hash)) [
  | inl new ↦
      let is = (add_block-ok commits c d blk receipts above new r).0 in
      subst (λ e. has_block e blk.hash ≡ true) is (ground arith)
  | inr (old, known) ↦
      let low : ltb blk.number c.tail ≡ false = ground arith in
      let there : has_block c blk.hash ≡ true = rw (known, has_block) refl in
      let is : Result.ok c ≡ Result.ok d = if-true _ _ _ there (if-false _ _ _ low r) in
      subst (λ e. has_block e blk.hash ≡ true) (ok-inj is) there
]

module _ {A M : Type 0} (exec : Execution A M) (commits : Commits) where
  -- An error left the backend as it was.
  Unchanged : {V : Type 0} → Backend A → Outcome (Error × Backend A) V → Type 0
  Unchanged b o = (why : Error) (b' : Backend A) → o ≡ fail (why, b') → b' ≡ b

  Unchanged-at :
      {V : Type 0} (b : Backend A) (o : Outcome (Error × Backend A) V) (why : Error)
      (b' : Backend A)
      → Unchanged b o
      → o ≡ fail (why, b')
      → b' ≡ b
  unfolding Unchanged
  Unchanged-at b o why b' kept r = kept why b' r

  fail-state :
      {V : Type 0} (why why' : Error) (b b' : Backend A)
      → ◌≡◌ {A = Outcome (Error × Backend A) V} (fail (why, b)) (fail (why', b'))
      → (why ≡ why') × (b ≡ b')
  fail-state why why' b b' e = (
    ap (λ o. elim o [ fail f ↦ f.0 | done v ↦ why ]) e,
    ap (λ o. elim o [ fail f ↦ f.1 | done v ↦ b ]) e,
  )

  orelse-Unchanged :
      {V : Type 0} (why : Error) (b : Backend A) (o : Option V)
      → Unchanged b (orelse exec commits why b o)
  unfolding Unchanged
  orelse-Unchanged why b none = λ why' b' r. sym (fail-state why why' b b' r).1
  orelse-Unchanged why b (some v) = λ why' b' r. absurd (ground arith)

  checked-Unchanged :
      {V : Type 0} (b : Backend A) (r : Result V) → Unchanged b (checked exec commits b r)
  unfolding Unchanged
  checked-Unchanged b (Result.err why) =
      λ why' b' r. sym (fail-state (Error.chain_error why) why' b b' r).1
  checked-Unchanged b (Result.ok v) = λ why' b' r. absurd (ground arith)

  and_then-Unchanged :
      {V W : Type 0} (b : Backend A) (first : Outcome (Error × Backend A) V)
      (next : V → Outcome (Error × Backend A) W)
      → Unchanged b first
      → ((v : V) → Unchanged b (next v))
      → Unchanged b (first and_then next)
  unfolding Unchanged
  and_then-Unchanged b first next one rest why b' r = elim (and_then-eq-fail first next r) [
    | inl early ↦ one why b' early
    | inr (v, went, late) ↦ rest v why b' late
  ]

  previous-Unchanged :
      (b : Backend A) (blk : Block) (prv_blk : Option Block)
      → Unchanged b (previous exec commits b blk prv_blk)
  unfolding Unchanged
  previous-Unchanged b blk none = checked-Unchanged b (get_block_by_hash b.bc blk.parent_hash)
  previous-Unchanged b blk (some prv) = λ why b' r. absurd (ground arith)

  judged-Unchanged :
      {V : Type 0} (b : Backend A) (verdict : Bool) (v : V)
      → Unchanged {V = V} b (if verdict then done v else fail (Error.invalid, b))
  unfolding Unchanged
  judged-Unchanged b true v = λ why' b' r. absurd (ground arith)
  judged-Unchanged b false v = λ why' b' r. sym (fail-state Error.invalid why' b b' r).1

  execute-Unchanged :
      (b : Backend A) (blk prv : Block) → Unchanged b (execute exec commits b blk prv)
  unfolding execute
  execute-Unchanged b blk prv =
      let state =
        orelse exec commits Error.no_state b (exec.get_mutable b.sa prv.number (exec.root prv)) in
      let run : M → Outcome (Error × Backend A) ((List Receipt × ℕ) × M) =
        λ m. orelse exec commits Error.process_error b (exec.process blk m) in
      and_then-Unchanged b (state and_then run)
        (λ r. if exec.validate blk r.0.0 r.0.1 then done (r.0.0, r.1) else fail (Error.invalid, b))
        (and_then-Unchanged b state run
          (orelse-Unchanged Error.no_state b (exec.get_mutable b.sa prv.number (exec.root prv)))
          (λ m. orelse-Unchanged Error.process_error b (exec.process blk m)))
        (λ r. judged-Unchanged b (exec.validate blk r.0.0 r.0.1) (r.0.0, r.1))

  -- The block before, which was given or is the parent in the store.
  abbrev pub IsPrevious : Backend A → Block → Option Block → Block → Type 0
  IsPrevious b blk none prv = get_block_by_hash b.bc blk.parent_hash ≡ Result.ok prv
  IsPrevious b blk (some given) prv = given ≡ prv

  -- The processor ran the block on the state of the block before, with these receipts and to this
  -- state, and the validator let the receipts and the gas used through.
  abbrev pub IsExecuted : Backend A → Block → Option Block → List Receipt → M → Type 0
  IsExecuted b blk prv_blk receipts m' =
      (prv : Block) × (m : M) × (gas : ℕ) × IsPrevious b blk prv_blk prv
      × (exec.get_mutable b.sa prv.number (exec.root prv) ≡ some m)
      × (exec.process blk m ≡ some ((receipts, gas), m'))
      × (exec.validate blk receipts gas ≡ true)

  orelse-done :
      {V : Type 0} (why : Error) (b : Backend A) (o : Option V) (v : V)
      → orelse exec commits why b o ≡ done v
      → o ≡ some v
  orelse-done why b none v e = absurd (ground arith)
  orelse-done why b (some w) v e = ap (λ o. elim o [ fail f ↦ some w | done u ↦ some u ]) e

  pub checked-done :
      {V : Type 0} (b : Backend A) (r : Result V) (v : V)
      → checked exec commits b r ≡ done v
      → r ≡ Result.ok v
  checked-done b (Result.err why) v e = absurd (ground arith)
  checked-done b (Result.ok w) v e =
      ap (λ o. elim o [ fail f ↦ Result.ok w | done u ↦ Result.ok u ]) e

  previous-done :
      (b : Backend A) (blk : Block) (prv_blk : Option Block) (prv : Block)
      → previous exec commits b blk prv_blk ≡ done prv
      → IsPrevious b blk prv_blk prv
  previous-done b blk none prv e = checked-done b (get_block_by_hash b.bc blk.parent_hash) prv e
  previous-done b blk (some given) prv e = ap (λ o. elim o [ fail f ↦ given | done u ↦ u ]) e

  judged-done :
      {V : Type 0} (verdict : Bool) (b : Backend A) (v w : V)
      → ◌≡◌ {A = Outcome (Error × Backend A) V}
          (if verdict then done v else fail (Error.invalid, b))
          (done w)
      → (verdict ≡ true) × (v ≡ w)
  judged-done true b v w e = (refl, ap (λ o. elim o [ fail f ↦ v | done u ↦ u ]) e)
  judged-done false b v w e = absurd (ground arith)

  -- What the block before and Process give.
  pub executed :
      (b : Backend A) (blk : Block) (prv_blk : Option Block) (r : List Receipt × M)
      → (previous exec commits b blk prv_blk and_then λ prv. execute exec commits b blk prv)
        ≡ done r
      → IsExecuted b blk prv_blk r.0 r.1
  unfolding execute
  executed b blk prv_blk r e =
      let (prv, found, ran) =
        and_then-eq-done (previous exec commits b blk prv_blk) (λ p. execute exec commits b blk p)
          e in
      let state =
        orelse exec commits Error.no_state b (exec.get_mutable b.sa prv.number (exec.root prv)) in
      let run : M → Outcome (Error × Backend A) ((List Receipt × ℕ) × M) =
        λ m. orelse exec commits Error.process_error b (exec.process blk m) in
      let (q, went, judged) =
        and_then-eq-done (state and_then run)
          (λ q.
            if exec.validate blk q.0.0 q.0.1 then done (q.0.0, q.1) else fail (Error.invalid, b))
          ran in
      let (m, first, second) = and_then-eq-done state run went in
      let (valid, same) = judged-done (exec.validate blk q.0.0 q.0.1) b (q.0.0, q.1) r judged in
      (
        prv,
        m,
        q.0.1,
        previous-done b blk prv_blk prv found,
        orelse-done Error.no_state b (exec.get_mutable b.sa prv.number (exec.root prv)) m first,
        orelse-done Error.process_error b (exec.process blk m) q second
            ∙ ap (λ (p : List Receipt × M). some ((p.0, q.0.1), p.1)) same,
        ap (λ (p : List Receipt × M). exec.validate blk p.0 q.0.1) (sym same) ∙ valid,
      )

  -- The block was added to the store, and then the Commit of the state that Process left answered an
  -- error.
  abbrev pub IsStranded : Backend A → Block → Option Block → Error → Backend A → Type 0
  IsStranded b blk prv_blk why b' =
      (why ≡ Error.state_error)
      × (receipts : List Receipt) × (m' : M) × IsExecuted b blk prv_blk receipts m'
      × (add_block (commits.adding blk.hash) b.bc blk receipts ≡ Result.ok b'.bc)
      × (exec.commit b.sa m' blk ≡ (b'.sa, Committing.commit_error))

  finalize-failed :
      (b : Backend A) (c : A × Committing) (why : Error) (b' : Backend A)
      → finalize exec commits b c ≡ fail (why, b')
      → (why ≡ Error.state_error) × (b'.bc ≡ b.bc) × (c ≡ (b'.sa, Committing.commit_error))
  finalize-failed b (sa, Committing.commit_error) why b' r =
      let (is, same) = fail-state Error.state_error why (record b { sa = sa }) b' r in
      (
        sym is,
        ap (λ c. c.bc) (sym same),
        ap (λ (c : Backend A). (c.sa, Committing.commit_error)) same,
      )
  finalize-failed b (sa, Committing.committed) why b' r = absurd (ground arith)
  finalize-failed b (sa, Committing.already_existed) why b' r = absurd (ground arith)

  adopt-failed :
      (b : Backend A) (blk : Block) (prv_blk : Option Block) (r : List Receipt × M) (why : Error)
      (b' : Backend A)
      → IsExecuted b blk prv_blk r.0 r.1
      → adopt exec commits b blk r ≡ fail (why, b')
      → (b' ≡ b) ⊎ IsStranded b blk prv_blk why b'
  unfolding adopt
  adopt-failed b blk prv_blk r why b' ran e =
      let added = checked exec commits b (add_block (commits.adding blk.hash) b.bc blk r.0) in
      let final : Chain → Outcome (Error × Backend A) (Backend A) =
        λ bc. finalize exec commits (record b { bc = bc }) (exec.commit b.sa r.1 blk) in
      elim (and_then-eq-fail (added and_then final)
        (λ c. done (
          headed exec commits c
            (set_head (commits.heading blk.hash) commits.pruning commits.tail_put c.bc blk.hash)))
        e) [
          | inr (c, went, late) ↦ absurd (ground arith)
          | inl early ↦ elim (and_then-eq-fail added final early) [
            | inl failed ↦ inl (
                Unchanged-at b
                  (checked exec commits b (add_block (commits.adding blk.hash) b.bc blk r.0)) why b'
                  (checked-Unchanged b (add_block (commits.adding blk.hash) b.bc blk r.0)) failed)
            | inr (bc, went, late) ↦
                let (is, same, refused) =
                  finalize-failed (record b { bc = bc }) (exec.commit b.sa r.1 blk) why b' late in
                inr (
                  is,
                  r.0,
                  r.1,
                  ran,
                  checked-done b (add_block (commits.adding blk.hash) b.bc blk r.0) bc went
                      ∙ ap Result.ok (sym same),
                  refused,
                )
          ]
        ]

  pub import_block-failed :
      (b : Backend A) (blk : Block) (prv_blk : Option Block) (why : Error) (b' : Backend A)
      → import_block exec commits b blk prv_blk ≡ fail (why, b')
      → (b' ≡ b) ⊎ IsStranded b blk prv_blk why b'
  unfolding import_block
  import_block-failed b blk prv_blk why b' r = elim (Bool-cases (has_block b.bc blk.hash)) [
    | inl known ↦ absurd (ground arith)
    | inr new ↦
        let run : Block → Outcome (Error × Backend A) (List Receipt × M) =
          λ prv. execute exec commits b blk prv in
        let before = previous exec commits b blk prv_blk and_then run in
        let whole : (before and_then adopt exec commits b blk) ≡ fail (why, b') =
          if-false (has_block b.bc blk.hash) (done b) (before and_then adopt exec commits b blk) new
            r in
        elim (and_then-eq-fail before (adopt exec commits b blk) whole) [
          | inl early ↦ inl (
              Unchanged-at b before why b'
                (and_then-Unchanged b (previous exec commits b blk prv_blk) run
                  (previous-Unchanged b blk prv_blk) (execute-Unchanged b blk))
                early)
          | inr (done_r, went, late) ↦
              adopt-failed b blk prv_blk done_r why b' (executed b blk prv_blk done_r went) late
        ]
  ]
