-- ===== src/Sprints/FirstLeaf/Laws.antt =====
-- What it means that cmd/sprint1 runs to its end.
use tessera_transparency.Base.{
  ℕ, ◌≡◌, refl, ◌≢◌, ap, sym, ◌∙◌, List, Bytes, Result, ok, err, arith, Result-cases, inl, inr,
  err-ne-ok,
}
use tessera_transparency.Log.{Log, Merkle, Checkpoint, Failure, hash_leaf}
use tessera_transparency.Sprints.FirstLeaf.{
  Stop, leaf_data, tampered_data, refuse, check_leaf, after_shutdown, after_append, main,
}

module _ (log : Log) (m : Merkle)
    (shutdown : log.State → log.State × Result Failure (Unit {0})) where
  refuse_sound :
      (idx : ℕ) (cp : Checkpoint) (proof : List Bytes)
      → m.verify_inclusion idx cp.size (hash_leaf m leaf_data) proof cp.hash ≡ ok tt
      → refuse log m shutdown
          (m.verify_inclusion idx cp.size (hash_leaf m tampered_data) proof cp.hash)
        ≡ ok tt
      → hash_leaf m tampered_data ≢ hash_leaf m leaf_data
  unfolding refuse
  refuse_sound idx cp proof good h same =
      let check : Bytes → Result Stop (Unit {0}) =
        λ leaf. refuse log m shutdown (m.verify_inclusion idx cp.size leaf proof cp.hash) in
      let accepted : check (hash_leaf m tampered_data) ≡ refuse log m shutdown (ok tt) =
        ap check same ∙ ap (refuse log m shutdown) good in
      err-ne-ok (sym accepted ∙ h)

  -- What a run to the end has seen.
  pub record IsProved (st : log.State) : Type 0 where
    pub appended : log.State
    pub closed : log.State
    pub index : ℕ
    pub raw : Bytes
    pub cp : Checkpoint
    pub builder : log.Builder
    pub proof : List Bytes
    pub append_ok : log.append st leaf_data ≡ (appended, ok (index, raw))
    pub shutdown_ok : shutdown appended ≡ (closed, ok tt)
    pub parsed : log.unmarshal_checkpoint raw ≡ ok cp
    pub built : log.new_proof_builder closed cp.size ≡ ok builder
    pub proved : log.inclusion_proof closed builder index ≡ ok proof
    pub verified : m.verify_inclusion index cp.size (hash_leaf m leaf_data) proof cp.hash ≡ ok tt
    pub told_apart : hash_leaf m tampered_data ≢ hash_leaf m leaf_data

  check_leaf_sound :
      (st : log.State) (idx : ℕ) (raw : Bytes)
      → check_leaf log m shutdown st idx raw ≡ ok tt
      → (cp : Checkpoint) × (pb : log.Builder) × (proof : List Bytes) × (log.unmarshal_checkpoint
            raw
          ≡ ok cp)
        × (log.new_proof_builder st cp.size ≡ ok pb)
        × (log.inclusion_proof st pb idx ≡ ok proof)
        × (m.verify_inclusion idx cp.size (hash_leaf m leaf_data) proof cp.hash ≡ ok tt)
        × (hash_leaf m tampered_data ≢ hash_leaf m leaf_data)
  unfolding check_leaf
  check_leaf_sound st idx raw h = elim (Result-cases (log.unmarshal_checkpoint raw)) [
    | inr (e, unparsed) ↦ absurd (ground arith)
    | inl (cp, parsed) ↦ elim (Result-cases (log.new_proof_builder st cp.size)) [
      | inr (e, unbuilt) ↦ absurd (ground arith)
      | inl (pb, built) ↦ elim (Result-cases (log.inclusion_proof st pb idx)) [
        | inr (e, unproved) ↦ absurd (ground arith)
        | inl (proof, proved) ↦
            elim (Result-cases
              (m.verify_inclusion idx cp.size (hash_leaf m leaf_data) proof cp.hash)) [
                | inr (e, wrong) ↦ absurd (ground arith)
                | inl (tt, verified) ↦ (
                  cp,
                  pb,
                  proof,
                  parsed,
                  built,
                  proved,
                  verified,
                  refuse_sound idx cp proof verified (ground arith),
                )
              ]
      ]
    ]
  ]

  after_shutdown_sound :
      (idx : ℕ) (raw : Bytes) (r : log.State × Result Failure (Unit {0}))
      → after_shutdown log m shutdown idx raw r ≡ ok tt
      → (r ≡ (r.0, ok tt)) × (check_leaf log m shutdown r.0 idx raw ≡ ok tt)
  unfolding after_shutdown
  after_shutdown_sound idx raw (st, err e) h = absurd (err-ne-ok h)
  after_shutdown_sound idx raw (st, ok tt) h = (refl, h)

  after_append_sound :
      (r : log.State × Result Failure (ℕ × Bytes))
      → after_append log m shutdown r ≡ ok tt
      → (idx : ℕ) × (raw : Bytes) × (r ≡ (r.0, ok (idx, raw)))
        × (after_shutdown log m shutdown idx raw (shutdown r.0) ≡ ok tt)
  unfolding after_append
  after_append_sound (st, err e) h = absurd (err-ne-ok h)
  after_append_sound (st, ok (idx, raw)) h = (idx, raw, refl, h)

  -- If the program runs to its end, the leaf was appended and the log closed, the log proved the
  -- leaf to be at the index that it gave, in the tree of the checkpoint that it gave, and the hash of
  -- the tampered leaf is another than that of the leaf.
  pub main-IsProved : (st : log.State) → main log m shutdown st ≡ ok tt → IsProved st
  unfolding main
  main-IsProved st h =
      let one = log.append st leaf_data in
      let (idx, raw, append_ok, more) = after_append_sound one h in
      let (shutdown_ok, rest) = after_shutdown_sound idx raw (shutdown one.0) more in
      let (cp, pb, proof, parsed, built, proved, verified, told_apart) =
        check_leaf_sound (shutdown one.0).0 idx raw rest in
      record {
        appended = one.0;
        closed = (shutdown one.0).0;
        index = idx;
        raw = raw;
        cp = cp;
        builder = pb;
        proof = proof;
        append_ok = append_ok;
        shutdown_ok = shutdown_ok;
        parsed = parsed;
        built = built;
        proved = proved;
        verified = verified;
        told_apart = told_apart;
      }
