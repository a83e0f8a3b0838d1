-- ===== src/Verify/Laws.antt =====
-- What an exit code of 0 of cmd/verify means.
use tessera_transparency.Base.{
  ℕ, ◌<◌, ◌≡◌, refl, ap, ◌∙◌, List, [], ◌∷◌, some, Bytes, Result, ok, err, leb, ltb, ◌==◌, arith,
  Result-cases, Bool-cases, Option-cases, inl, inr,
}
use tessera_transparency.Text.Hex
use tessera_transparency.Text.Integer.{pos}
use tessera_transparency.Log.{Log, Merkle, Checkpoint}
use tessera_transparency.Verify.{
  Flags, Fetchers, Fault, Stop, Line, Run, exit_code, printed, of_result, and_then, required,
  open_log, check_inclusion, check_consistency, inclusion_part, consistency_part, checks, read_head,
  after_head, after_open, main, tree_head, leaf_hex_required, bad_leaf_hex, old_root_required,
  bad_old_root,
}

required_ok :
    (absent bad : Fault) (s raw : Bytes) → required absent bad s ≡ ok raw → Hex.decode s ≡ some raw
unfolding required
required_ok absent bad s raw h = elim (Option-cases (Hex.decode s)) [
  | inl undecoded ↦ absurd (ground arith)
  | inr (x, decoded) ↦ ground arith
]

-- A run that exits with 0 has run both of its parts so.
and_then-exit : (r s : Run) → exit_code (and_then r s) ≡ 0 → (exit_code r ≡ 0) × (exit_code s ≡ 0)
unfolding and_then exit_code
and_then-exit r s h = ground arith

of_result-exit :
    (x : Result Stop (List Line)) → exit_code (of_result x) ≡ 0 → (ls : List Line) × (x ≡ ok ls)
unfolding of_result exit_code
of_result-exit (ok ls) h = (ls, refl)
of_result-exit (err s) h = absurd (omega arith)

module _ (log : Log) (m : Merkle) where
  -- The inclusion proof that was checked.
  pub record IsIncluded (f : Flags) (cp : Checkpoint) (st : log.State) (idx : ℕ) : Type 0 where
    pub leaf : Bytes
    pub builder : log.Builder
    pub proof : List Bytes
    pub leaf_decoded : Hex.decode f.leaf_hex ≡ some leaf
    pub covered : idx < cp.size
    pub built : log.new_proof_builder st cp.size ≡ ok builder
    pub proved : log.inclusion_proof st builder idx ≡ ok proof
    pub verified : m.verify_inclusion idx cp.size leaf proof cp.hash ≡ ok tt

  -- The consistency proof that was checked.
  pub record IsConsistent (f : Flags) (cp : Checkpoint) (st : log.State) (from to : ℕ)
      : Type 0 where
    pub old_root : Bytes
    pub builder : log.Builder
    pub proof : List Bytes
    pub root_decoded : Hex.decode f.old_root ≡ some old_root
    pub current : to ≡ cp.size
    pub built : log.new_proof_builder st cp.size ≡ ok builder
    pub proved : log.consistency_proof st builder from to ≡ ok proof
    pub verified : m.verify_consistency from to proof old_root cp.hash ≡ ok tt

module _ (log : Log) (m : Merkle) (fetchers : Fetchers log) where
  check_inclusion_ok :
      (f : Flags) (cp : Checkpoint) (st : log.State) (idx : ℕ) (ls : List Line)
      → check_inclusion log m fetchers f cp st idx ≡ ok ls
      → IsIncluded log m f cp st idx
  unfolding check_inclusion
  check_inclusion_ok f cp st idx ls h =
      elim (Result-cases (required leaf_hex_required bad_leaf_hex f.leaf_hex)) [
        | inr (e, undecoded) ↦ absurd (ground arith)
        | inl (leaf, decoded) ↦ elim (Bool-cases (leb cp.size idx)) [
          | inl beyond ↦ absurd (ground arith)
          | inr inside ↦ elim (Result-cases (log.new_proof_builder st cp.size)) [
            | inr (e, unbuilt) ↦ absurd (ground arith)
            | inl (pb, built) ↦ elim (Result-cases (log.inclusion_proof st pb idx)) [
              | inr (e, unproved) ↦ absurd (ground arith)
              | inl (proof, proved) ↦
                  elim (Result-cases (m.verify_inclusion idx cp.size leaf proof cp.hash)) [
                    | inr (e, wrong) ↦ absurd (ground arith)
                    | inl (tt, verified) ↦ record {
                      leaf = leaf;
                      builder = pb;
                      proof = proof;
                      leaf_decoded = required_ok _ _ f.leaf_hex leaf decoded;
                      covered = ground arith;
                      built = built;
                      proved = proved;
                      verified = verified;
                    }
                  ]
            ]
          ]
        ]
      ]

  check_consistency_ok :
      (f : Flags) (cp : Checkpoint) (st : log.State) (from to : ℕ) (ls : List Line)
      → check_consistency log m fetchers f cp st from to ≡ ok ls
      → IsConsistent log m f cp st from to
  unfolding check_consistency
  check_consistency_ok f cp st from to ls h =
      elim (Result-cases (required old_root_required bad_old_root f.old_root)) [
        | inr (e, undecoded) ↦ absurd (ground arith)
        | inl (old_root, decoded) ↦ elim (Bool-cases (ltb cp.size to)) [
          | inl beyond ↦ absurd (ground arith)
          | inr inside ↦ elim (Bool-cases (to == cp.size)) [
            | inr stale ↦ absurd (ground arith)
            | inl current ↦ elim (Result-cases (log.new_proof_builder st cp.size)) [
              | inr (e, unbuilt) ↦ absurd (ground arith)
              | inl (pb, built) ↦ elim (Result-cases (log.consistency_proof st pb from to)) [
                | inr (e, unproved) ↦ absurd (ground arith)
                | inl (proof, proved) ↦
                    elim (Result-cases (m.verify_consistency from to proof old_root cp.hash)) [
                      | inr (e, wrong) ↦ absurd (ground arith)
                      | inl (tt, verified) ↦ record {
                        old_root = old_root;
                        builder = pb;
                        proof = proof;
                        root_decoded = required_ok _ _ f.old_root old_root decoded;
                        current = ground arith;
                        built = built;
                        proved = proved;
                        verified = verified;
                      }
                    ]
              ]
            ]
          ]
        ]
      ]

  -- The log and the checkpoint that a run reads.
  pub record Head (f : Flags) : Type 0 where
    pub line : Line
    pub st : log.State
    pub cp : Checkpoint
    pub opened : open_log log m fetchers f ≡ ok (line, st)
    pub head : read_head log m fetchers st ≡ ok cp

  pub main-Head :
      (f : Flags) (h : Head f)
      → main log m fetchers f
        ≡ and_then (printed (h.line ∷ [])) (
            and_then
              (printed (tree_head h.cp.size h.cp.hash ∷ []))
              (checks log m fetchers f h.cp h.st))
  unfolding main after_open after_head
  main-Head f h =
      ap (after_open log m fetchers f) h.opened
      ∙ ap (λ x. and_then (printed (h.line ∷ [])) (after_head log m fetchers f h.st x)) h.head

  -- The tree head of a run that goes on behind it.
  after_head-exit :
      (f : Flags) (st : log.State) (x : Result Stop Checkpoint)
      → exit_code (after_head log m fetchers f st x) ≡ 0
      → (cp : Checkpoint) × (x ≡ ok cp) × (exit_code (checks log m fetchers f cp st) ≡ 0)
  unfolding after_head exit_code
  after_head-exit f st (err s) h = absurd (omega arith)
  after_head-exit f st (ok cp) h = (cp, refl, (and_then-exit _ _ h).1)

  after_open-exit :
      (f : Flags) (x : Result Stop (Line × log.State))
      → exit_code (after_open log m fetchers f x) ≡ 0
      → (y : Line × log.State) × (x ≡ ok y)
        × (exit_code (after_head log m fetchers f y.1 (read_head log m fetchers y.1)) ≡ 0)
  unfolding after_open exit_code
  after_open-exit f (err s) h = absurd (omega arith)
  after_open-exit f (ok (line, st)) h = ((line, st), refl, (and_then-exit _ _ h).1)

  main-exit :
      (f : Flags)
      → exit_code (main log m fetchers f) ≡ 0
      → (h : Head f) × (exit_code (checks log m fetchers f h.cp h.st) ≡ 0)
  unfolding main
  main-exit f h =
      let ((line, st), opened, rest) = after_open-exit f (open_log log m fetchers f) h in
      let (cp, head, done) = after_head-exit f st (read_head log m fetchers st) rest in
      (record { line = line; st = st; cp = cp; opened = opened; head = head }, done)

  checks-exit :
      (f : Flags) (cp : Checkpoint) (st : log.State)
      → exit_code (checks log m fetchers f cp st) ≡ 0
      → ((ls : List Line) × (inclusion_part log m fetchers f cp st f.index ≡ ok ls))
        × ((ls : List Line) × (consistency_part log m fetchers f cp st f.from f.to ≡ ok ls))
  unfolding checks
  checks-exit f cp st h =
      let (first, more) = and_then-exit _ _ h in
      let (second, last) = and_then-exit _ _ more in
      (of_result-exit _ first, of_result-exit _ second)

  -- Where the program is asked about an index and exits with 0, the log that it read gave a
  -- checkpoint that covers the index, and the library accepted the log's proof that the leaf hash
  -- of the flag is at the index, against the root of that checkpoint.
  pub main-IsIncluded :
      (f : Flags) (idx : ℕ)
      → f.index ≡ pos idx
      → exit_code (main log m fetchers f) ≡ 0
      → (h : Head f) × IsIncluded log m f h.cp h.st idx
  unfolding inclusion_part
  main-IsIncluded f idx asked h =
      let (head, done) = main-exit f h in
      let ((ls, included), consistent) = checks-exit f head.cp head.st done in
      (head, check_inclusion_ok f head.cp head.st idx ls (rw (asked, inclusion_part) at included))

  -- Where the program is asked about two sizes and exits with 0, the second is the size of the
  -- checkpoint that it read, and the library accepted the log's proof that the tree of the old root
  -- is a prefix of the tree of the checkpoint.
  pub main-IsConsistent :
      (f : Flags) (from to : ℕ)
      → f.from ≡ pos from
      → f.to ≡ pos to
      → exit_code (main log m fetchers f) ≡ 0
      → (h : Head f) × IsConsistent log m f h.cp h.st from to
  unfolding consistency_part
  main-IsConsistent f from to asked_from asked_to h =
      let (head, done) = main-exit f h in
      let (included, (ls, consistent)) = checks-exit f head.cp head.st done in
      (
        head,
        check_consistency_ok f head.cp head.st from to ls
            (rw (asked_from, asked_to, consistency_part) at consistent),
      )
