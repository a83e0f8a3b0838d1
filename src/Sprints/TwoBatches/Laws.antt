-- ===== src/Sprints/TwoBatches/Laws.antt =====
-- What it means that cmd/sprint1b runs to its end.
use tessera_transparency.Base.{
  ℕ, ◌≡◌, refl, ◌≢◌, ap, sym, ◌∙◌, List, [], ◌∷◌, Bytes, Result, ok, err, get_or, arith,
  Result-cases, inl, inr, All, err-ne-ok, suc, ◌++◌, none, some, Option, length, length-append,
  append_assoc, wrap_ok, wrap_bind_ok,
}
use tessera_transparency.Log.{Log, Merkle, Checkpoint, Failure, Appender}
use tessera_transparency.Log.Indexes.{IsSequential}
use mathlib.Core.Path.{subst}
use mathlib.Core.Option.{some-injective}
use tessera_transparency.Sprints.TwoBatches.{
  Stop, panicked, batch1, batch2, add_all, await_batch, must_checkpoint, leaf_hashes, run_batch,
  check_indexes, fake_root, refused, check_extension, check_proofs, after_shutdown, after_second,
  after_first, main,
}

module _ (log : Log) (m : Merkle) (a : Appender log) (seq : IsSequential log a) where
  -- The proof of an index that was accepted.
  abbrev pub Included : log.State → log.Builder → Checkpoint → ℕ → Type 0
  Included st pb cp idx =
      (proof : List Bytes) × (log.inclusion_proof st pb idx ≡ ok proof)
      × (m.verify_inclusion idx cp.size (get_or (leaf_hashes log m a) idx []) proof cp.hash ≡ ok tt)

  check_indexes_sound :
      (st : log.State) (pb : log.Builder) (cp : Checkpoint) (is : List ℕ)
      → check_indexes log m a st pb cp is ≡ ok tt
      → All (Included st pb cp) is
  unfolding check_indexes
  check_indexes_sound st pb cp [] h = tt
  check_indexes_sound st pb cp (idx ∷ is) h = elim (Result-cases (log.inclusion_proof st pb idx)) [
    | inr (e, unproved) ↦ absurd (ground arith)
    | inl (proof, proved) ↦
        let hash = get_or (leaf_hashes log m a) idx [] in
        elim (Result-cases (m.verify_inclusion idx cp.size hash proof cp.hash)) [
          | inr (e, wrong) ↦ absurd (ground arith)
          | inl (tt, verified) ↦
              ((proof, proved, verified), check_indexes_sound st pb cp is (ground arith))
        ]
  ]

  -- The consistency proof that was accepted, and refused for the forged root.
  abbrev pub Extended : log.State → log.Builder → Checkpoint → Checkpoint → Type 0
  Extended st pb cp1 cp2 =
      (proof : List Bytes) × (log.consistency_proof st pb cp1.size cp2.size ≡ ok proof)
      × (m.verify_consistency cp1.size cp2.size proof cp1.hash cp2.hash ≡ ok tt)
      × (fake_root log m a ≢ cp1.hash)

  refused_sound :
      (cp1 cp2 : Checkpoint) (proof : List Bytes)
      → m.verify_consistency cp1.size cp2.size proof cp1.hash cp2.hash ≡ ok tt
      → refused log m a (m.verify_consistency cp1.size cp2.size proof (fake_root log m a) cp2.hash)
        ≡ ok tt
      → fake_root log m a ≢ cp1.hash
  unfolding refused
  refused_sound cp1 cp2 proof good h same =
      let check : Bytes → Result Failure (Unit {0}) =
        λ root. m.verify_consistency cp1.size cp2.size proof root cp2.hash in
      let accepted : refused log m a (check (fake_root log m a)) ≡ refused log m a (ok tt) =
        ap (λ root. refused log m a (check root)) same ∙ ap (refused log m a) good in
      err-ne-ok (sym accepted ∙ h)

  check_extension_sound :
      (st : log.State) (pb : log.Builder) (cp1 cp2 : Checkpoint)
      → check_extension log m a st pb cp1 cp2 ≡ ok tt
      → Extended st pb cp1 cp2
  unfolding check_extension
  check_extension_sound st pb cp1 cp2 h =
      elim (Result-cases (log.consistency_proof st pb cp1.size cp2.size)) [
        | inr (e, unproved) ↦ absurd (ground arith)
        | inl (proof, proved) ↦
            elim (Result-cases (m.verify_consistency cp1.size cp2.size proof cp1.hash cp2.hash)) [
              | inr (e, wrong) ↦ absurd (ground arith)
              | inl (tt, verified) ↦
                  (proof, proved, verified, refused_sound cp1 cp2 proof verified (ground arith))
            ]
      ]

  -- A batch that was appended: the log holds its entries in their order behind the others, waiting
  -- has ended with the index of the last one of them, and gave a checkpoint.
  pub record IsAppended (es : List Bytes) (st st' : log.State) (cp : Checkpoint) : Type 0 where
    pub waiting : log.State
    pub future : a.Future
    pub idx : ℕ
    pub raw : Bytes
    pub held : seq.entries st' ≡ seq.entries st ++ es
    pub awaited : a.await waiting future ≡ (st', ok (idx, raw))
    pub last : suc idx ≡ length (seq.entries st')
    pub parsed : log.unmarshal_checkpoint raw ≡ ok cp

  add_all_lem :
      (e : Bytes) (es : List Bytes) (last : Option a.Future) (st : log.State)
      → let (st', last') = add_all log m a (e ∷ es) last st in
        (f : a.Future) × (last' ≡ some f)
        × (seq.entries st' ≡ seq.entries st ++ e ∷ es)
        × (suc (seq.index f) ≡ length (seq.entries st'))
  unfolding add_all
  add_all_lem e [] last st =
      let held = seq.entries-add st e in
      (
        (a.add st e).1,
        refl,
        held,
        omega (
          arith,
          seq.index-add st e,
          ap (λ (l : List Bytes). length l) held,
          length-append (seq.entries st) (e ∷ []),
        ),
      )
  add_all_lem e (d ∷ es) last st =
      let one = a.add st e in
      let (f, found, held, at) = add_all_lem d es (some one.1) one.0 in
      (
        f,
        found,
        held
            ∙ ap (λ l. l ++ d ∷ es) (seq.entries-add st e)
            ∙ append_assoc (seq.entries st) (e ∷ []) (d ∷ es),
        at,
      )

  await_batch_sound :
      (r : log.State × Option a.Future) (f : a.Future) (st' : log.State) (cp : Checkpoint)
      → r.1 ≡ some f
      → await_batch log m a r ≡ (st', ok cp)
      → (idx : ℕ) × (raw : Bytes) × (a.await r.0 f ≡ (st', ok (idx, raw)))
        × (log.unmarshal_checkpoint raw ≡ ok cp)
  unfolding await_batch must_checkpoint
  await_batch_sound (st, none) f st' cp found h = absurd (ground arith)
  await_batch_sound (st, some g) f st' cp found h =
      let same : g ≡ f = some-injective _ _ found in
      let ((idx, raw), got, h1) = wrap_bind_ok panicked (a.await st g).1 _ (ap (λ p. p.1) h) in
      (
        idx,
        raw,
        subst (λ x. a.await st x ≡ (st', ok (idx, raw))) same (λ i. ((h i).0, got i)),
        wrap_ok panicked (log.unmarshal_checkpoint raw) h1,
      )

  run_batch_sound :
      (e : Bytes) (es : List Bytes) (st st' : log.State) (cp : Checkpoint)
      → run_batch log m a (e ∷ es) st ≡ (st', ok cp)
      → IsAppended (e ∷ es) st st' cp
  unfolding run_batch
  run_batch_sound e es st st' cp h =
      let added = add_all log m a (e ∷ es) none st in
      let (f, found, held, at) = add_all_lem e es none st in
      let (idx, raw, awaited, parsed) = await_batch_sound added f st' cp found h in
      let kept : seq.entries st' ≡ seq.entries added.0 =
        ap (λ p. seq.entries p.0) (sym awaited) ∙ seq.entries-await added.0 f in
      record {
        waiting = added.0;
        future = f;
        idx = idx;
        raw = raw;
        held = kept ∙ held;
        awaited = awaited;
        last =
            ap suc (seq.await_index added.0 f idx raw (ap (λ p. p.1) awaited))
            ∙ at
            ∙ ap (λ (l : List Bytes). length l) (sym kept);
        parsed = parsed;
      }

  -- What a run to the end has seen.
  pub record IsComplete (st : log.State) : Type 0 where
    pub st1 : log.State
    pub st2 : log.State
    pub st3 : log.State
    pub cp1 : Checkpoint
    pub cp2 : Checkpoint
    pub builder : log.Builder
    pub first : IsAppended batch1 st st1 cp1
    pub second : IsAppended batch2 st1 st2 cp2
    pub closed : a.shutdown st2 ≡ (st3, ok tt)
    pub built : log.new_proof_builder st3 cp2.size ≡ ok builder
    pub included : All (Included st3 builder cp2) (0 ∷ 4 ∷ 9 ∷ [])
    pub extended : Extended st3 builder cp1 cp2

  check_proofs_sound :
      (st : log.State) (cp1 cp2 : Checkpoint)
      → check_proofs log m a st cp1 cp2 ≡ ok tt
      → (pb : log.Builder) × (log.new_proof_builder st cp2.size ≡ ok pb)
        × All (Included st pb cp2) (0 ∷ 4 ∷ 9 ∷ [])
        × Extended st pb cp1 cp2
  unfolding check_proofs
  check_proofs_sound st cp1 cp2 h = elim (Result-cases (log.new_proof_builder st cp2.size)) [
    | inr (e, unbuilt) ↦ absurd (ground arith)
    | inl (pb, built) ↦ elim (Result-cases (check_indexes log m a st pb cp2 (0 ∷ 4 ∷ 9 ∷ []))) [
      | inr (e, missing) ↦ absurd (ground arith)
      | inl (tt, present) ↦ (
        pb,
        built,
        check_indexes_sound st pb cp2 (0 ∷ 4 ∷ 9 ∷ []) present,
        check_extension_sound st pb cp1 cp2 (ground arith),
      )
    ]
  ]

  after_shutdown_sound :
      (cp1 cp2 : Checkpoint) (r : log.State × Result Failure (Unit {0}))
      → after_shutdown log m a cp1 cp2 r ≡ ok tt
      → (r ≡ (r.0, ok tt)) × (check_proofs log m a r.0 cp1 cp2 ≡ ok tt)
  unfolding after_shutdown
  after_shutdown_sound cp1 cp2 (st, err e) h = absurd (err-ne-ok h)
  after_shutdown_sound cp1 cp2 (st, ok tt) h = (refl, h)

  after_second_sound :
      (cp1 : Checkpoint) (r : log.State × Result Stop Checkpoint)
      → after_second log m a cp1 r ≡ ok tt
      → (cp2 : Checkpoint) × (r ≡ (r.0, ok cp2))
        × (after_shutdown log m a cp1 cp2 (a.shutdown r.0) ≡ ok tt)
  unfolding after_second
  after_second_sound cp1 (st, err e) h = absurd (err-ne-ok h)
  after_second_sound cp1 (st, ok cp2) h = (cp2, refl, h)

  after_first_sound :
      (r : log.State × Result Stop Checkpoint)
      → after_first log m a r ≡ ok tt
      → (cp1 : Checkpoint) × (r ≡ (r.0, ok cp1))
        × (after_second log m a cp1 (run_batch log m a batch2 r.0) ≡ ok tt)
  unfolding after_first
  after_first_sound (st, err e) h = absurd (err-ne-ok h)
  after_first_sound (st, ok cp1) h = (cp1, refl, h)

  -- A log holds the entries in the order of the calls of `Add`, and waiting for an entry does not end
  -- with another index than the entry's. If the program runs to its end, then the log has held the
  -- five texts of the first batch behind what it held before, and the program has waited for the last
  -- of them and got a checkpoint; the same for the second batch behind the first. The log was closed,
  -- and then proved the entries 0, 4 and 9 to be in the second tree with the leaf hashes of their
  -- texts, and proved the second tree to extend the first, and the forged root is not the root of the
  -- first tree.
  pub main-IsComplete : (st : log.State) → main log m a st ≡ ok tt → IsComplete st
  unfolding main
  main-IsComplete st h =
      let one = run_batch log m a batch1 st in
      let (cp1, first, more) = after_first_sound one h in
      let two = run_batch log m a batch2 one.0 in
      let (cp2, second, rest) = after_second_sound cp1 two more in
      let (closed, checked) = after_shutdown_sound cp1 cp2 (a.shutdown two.0) rest in
      let (pb, built, included, extended) =
        check_proofs_sound (a.shutdown two.0).0 cp1 cp2 checked in
      record {
        st1 = one.0;
        st2 = two.0;
        st3 = (a.shutdown two.0).0;
        cp1 = cp1;
        cp2 = cp2;
        builder = pb;
        first = run_batch_sound _ _ st one.0 cp1 first;
        second = run_batch_sound _ _ one.0 two.0 cp2 second;
        closed = closed;
        built = built;
        included = included;
        extended = extended;
      }
