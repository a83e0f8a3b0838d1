-- ===== src/Bench/Correctness/Meaning.antt =====
-- What the checks of the correctness suite ask of the log and of the library.
use tessera_transparency.Base.{
  ℕ, zero, suc, ◌-◌, ◌/◌, ◌<◌, ◌≡◌, refl, ◌≢◌, ◌↔◌, ap, sym, ◌∙◌, List, [], ◌∷◌, ◌++◌, some,
  Option-cases, Bytes, length, get_or, arith, Bool, true, Bool-cases, inl, inr, ok, err,
  Result-cases, All, ◌==◌, ==_iff,
}
use tessera_transparency.Base.Flips.{flip_at}
use tessera_transparency.Log.{Log, Merkle, Checkpoint, Failure, hash_leaf}
use tessera_transparency.Bench.Correctness.Counting.{AllPass}
use tessera_transparency.Bench.Correctness.{
  EntryRecord, zero_record, tamper, check_record, check_pair, check_negative, rejects, check_all,
  exit_code,
}
use tessera_transparency.Bench.Correctness.Laws.{pairs_of, exit_code-AllPass}

-- A copy of a token with one byte replaced: all bits of the byte in its middle are the other way.
pub record IsTampered (token copy : Bytes) : Type 0 where
  pub before : Bytes
  pub middle : ℕ
  pub after : Bytes
  pub whole : token ≡ before ++ middle ∷ after
  pub centred : length before ≡ length token / 2
  pub changed : copy ≡ before ++ (255 - middle) ∷ after

flip_at-split :
    (i : ℕ) (d : Bytes)
    → i < length d
    → (before : Bytes) × (b : ℕ) × (after : Bytes) × (d ≡ before ++ b ∷ after)
      × (length before ≡ i)
      × (flip_at i d ≡ before ++ (255 - b) ∷ after)
flip_at-split i [] h = absurd (omega arith)
flip_at-split zero (b ∷ d) h = ([], b, d, refl, refl, refl)
flip_at-split (suc i) (b ∷ d) h =
    let (before, c, after, whole, at, changed) = flip_at-split i d (omega arith) in
    (b ∷ before, c, after, ap (λ t. b ∷ t) whole, ap suc at, ap (λ t. b ∷ t) changed)

flip_at-append :
    (before after : Bytes) (b : ℕ)
    → flip_at (length before) (before ++ b ∷ after) ≡ before ++ (255 - b) ∷ after
flip_at-append [] after b = refl
flip_at-append (x ∷ before) after b = ap (λ t. x ∷ t) (flip_at-append before after b)

tamper-IsTampered : (token : Bytes) → token ≢ [] → IsTampered token (tamper token)
unfolding tamper
tamper-IsTampered [] filled = absurd (filled refl)
tamper-IsTampered (b ∷ d) filled =
    let (before, c, after, whole, at, changed) =
      flip_at-split (length (b ∷ d) / 2) (b ∷ d) (omega arith) in
    record {
      before = before;
      middle = c;
      after = after;
      whole = whole;
      centred = at;
      changed = changed;
    }

IsTampered-tamper : (token copy : Bytes) → IsTampered token copy → tamper token ≡ copy
unfolding tamper
IsTampered-tamper token copy t =
    ap (λ i. flip_at i token) (sym t.centred)
    ∙ ap (flip_at (length t.before)) t.whole
    ∙ flip_at-append t.before t.after t.middle
    ∙ sym t.changed

AllPass-All :
    {A : Type 0} (p : A → Bool) {P : A → Type 0} (xs : List A)
    → ((x : A) → p x ≡ true → P x)
    → AllPass p xs
    → All P xs
AllPass-All p [] f h = tt
AllPass-All p (x ∷ xs) f (hx, h) = (f x hx, AllPass-All p xs f h)

All-AllPass :
    {A : Type 0} (p : A → Bool) {P : A → Type 0} (xs : List A)
    → ((x : A) → P x → p x ≡ true)
    → All P xs
    → AllPass p xs
All-AllPass p [] f h = tt
All-AllPass p (x ∷ xs) f (hx, h) = (f x hx, All-AllPass p xs f h)

module _ (log : Log) (m : Merkle) (st : log.State) (pb : log.Builder) (cp : Checkpoint) where
  -- The record was written, and the library accepts the log's proof of its leaf hash.
  pub record IsIncluded (r : EntryRecord) : Type 0 where
    pub token : Bytes
    pub proof : List Bytes
    pub written : r.token_data ≡ some token
    pub proved : log.inclusion_proof st pb r.log_index ≡ ok proof
    pub accepted : m.verify_inclusion r.log_index cp.size r.leaf_hash proof cp.hash ≡ ok tt

  -- The library accepts a proof that the second tree extends the first.
  pub record IsConnected (from to : Checkpoint) : Type 0 where
    pub builder : log.Builder
    pub proof : List Bytes
    pub built : log.new_proof_builder st to.size ≡ ok builder
    pub proved : log.consistency_proof st builder from.size to.size ≡ ok proof
    pub accepted : m.verify_consistency from.size to.size proof from.hash to.hash ≡ ok tt

  -- Two snapshots are checkpoints, of the same size or of trees that extend each other.
  pub record IsExtended (pair : Bytes × Bytes) : Type 0 where
    pub from : Checkpoint
    pub to : Checkpoint
    pub from_read : log.unmarshal_checkpoint pair.0 ≡ ok from
    pub to_read : log.unmarshal_checkpoint pair.1 ≡ ok to
    pub connected : from.size ≢ to.size → IsConnected from to

  -- The library refuses the leaf hash of a tampered copy of the token, with the log's proof of the
  -- record's index.
  pub record IsRejected (r : EntryRecord) : Type 0 where
    pub token : Bytes
    pub copy : Bytes
    pub proof : List Bytes
    pub error : Failure
    pub written : r.token_data ≡ some token
    pub tampered : IsTampered token copy
    pub proved : log.inclusion_proof st pb r.log_index ≡ ok proof
    pub refused :
        m.verify_inclusion r.log_index cp.size (hash_leaf m copy) proof cp.hash ≡ err error

  check_record_sound : (r : EntryRecord) → check_record log m st pb cp r ≡ true → IsIncluded r
  unfolding check_record
  check_record_sound r h = elim (Option-cases r.token_data) [
    | inl unwritten ↦ absurd (ground arith)
    | inr (token, written) ↦ elim (Result-cases (log.inclusion_proof st pb r.log_index)) [
      | inr (e, unproved) ↦ absurd (ground arith)
      | inl (proof, proved) ↦
          elim (Result-cases (m.verify_inclusion r.log_index cp.size r.leaf_hash proof cp.hash)) [
            | inr (e, wrong) ↦ absurd (ground arith)
            | inl (tt, accepted) ↦ record {
              token = token;
              proof = proof;
              written = written;
              proved = proved;
              accepted = accepted;
            }
          ]
    ]
  ]

  check_record_complete : (r : EntryRecord) → IsIncluded r → check_record log m st pb cp r ≡ true
  unfolding check_record
  check_record_complete r i = rw i.written (rw i.proved (rw i.accepted))

  check_pair-IsConnected :
      (pair : Bytes × Bytes) (from to : Checkpoint)
      → log.unmarshal_checkpoint pair.0 ≡ ok from
      → log.unmarshal_checkpoint pair.1 ≡ ok to
      → check_pair log m st pair.0 pair.1 ≡ true
      → from.size ≢ to.size
      → IsConnected from to
  unfolding check_pair
  check_pair-IsConnected pair from to read1 read2 h other =
      elim (Bool-cases (from.size == to.size)) [
        | inl same ↦ absurd (other ((==_iff from.size to.size).0 same))
        | inr differ ↦ elim (Result-cases (log.new_proof_builder st to.size)) [
          | inr (e, unbuilt) ↦ absurd (ground arith)
          | inl (b, built) ↦ elim (Result-cases (log.consistency_proof st b from.size to.size)) [
            | inr (e, unproved) ↦ absurd (ground arith)
            | inl (proof, proved) ↦
                elim (Result-cases
                  (m.verify_consistency from.size to.size proof from.hash to.hash)) [
                    | inr (e, wrong) ↦ absurd (ground arith)
                    | inl (tt, accepted) ↦ record {
                      builder = b;
                      proof = proof;
                      built = built;
                      proved = proved;
                      accepted = accepted;
                    }
                  ]
          ]
        ]
      ]

  check_pair_sound :
      (pair : Bytes × Bytes) → check_pair log m st pair.0 pair.1 ≡ true → IsExtended pair
  check_pair_sound pair h = elim (Result-cases (log.unmarshal_checkpoint pair.0)) [
    | inr (e, unread) ↦ absurd (unfold check_pair in ground arith)
    | inl (from, read1) ↦ elim (Result-cases (log.unmarshal_checkpoint pair.1)) [
      | inr (e, unread) ↦ absurd (unfold check_pair in ground arith)
      | inl (to, read2) ↦ record {
        from = from;
        to = to;
        from_read = read1;
        to_read = read2;
        connected = check_pair-IsConnected pair from to read1 read2 h;
      }
    ]
  ]

  check_pair_complete :
      (pair : Bytes × Bytes) → IsExtended pair → check_pair log m st pair.0 pair.1 ≡ true
  unfolding check_pair
  check_pair_complete pair x = elim (Bool-cases (x.from.size == x.to.size)) [
    | inl same ↦ rw x.from_read (rw x.to_read (rw same))
    | inr differ ↦
        let c = x.connected (λ e. ground arith) in
        rw x.from_read (rw x.to_read (rw differ (rw c.built (rw c.proved (rw c.accepted)))))
  ]

  check_negative_sound :
      (r : EntryRecord)
      → r.token_data ≢ some []
      → check_negative log m st pb cp r ≡ true
      → IsRejected r
  unfolding check_negative
  check_negative_sound r filled h = elim (Option-cases r.token_data) [
    | inl unwritten ↦ absurd (ground arith)
    | inr (token, written) ↦ elim (Result-cases (log.inclusion_proof st pb r.log_index)) [
      | inr (e, unproved) ↦ absurd (ground arith)
      | inl (proof, proved) ↦
          elim (Result-cases
            (m.verify_inclusion r.log_index cp.size (hash_leaf m (tamper token)) proof cp.hash)) [
              | inl (tt, accepted) ↦ absurd (ground arith)
              | inr (e, refused) ↦ record {
                token = token;
                copy = tamper token;
                proof = proof;
                error = e;
                written = written;
                tampered = tamper-IsTampered token (λ nil. filled (written ∙ ap (λ t. some t) nil));
                proved = proved;
                refused = refused;
              }
            ]
    ]
  ]

  check_negative_complete :
      (r : EntryRecord) → IsRejected r → check_negative log m st pb cp r ≡ true
  unfolding check_negative
  check_negative_complete r x =
      let same = IsTampered-tamper x.token x.copy x.tampered in
      rw (x.written, check_negative) (rw (x.proved, rejects) (rw same (rw x.refused)))

  -- No record holds an empty token, whose middle byte the negative tests could not change. Then the
  -- program exits with 0 exactly if every record was written and the library accepts the log's proof
  -- of its leaf hash at its index, every snapshot and the next one are checkpoints of the same size
  -- or of two trees of which the library accepts the proof that one extends the other, and for every
  -- record that was drawn the library refuses the proof of its index for the leaf hash of its token
  -- with the bits of the middle byte turned.
  pub exit_code-check_all :
      (records : List EntryRecord) (snapshots : List Bytes) (draws : List ℕ)
      → ((i : ℕ) → (get_or records i zero_record).token_data ≢ some [])
      → (exit_code (check_all log m st pb cp records snapshots draws) ≡ 0) ↔ (
          All IsIncluded records
          × All IsExtended (pairs_of snapshots)
          × All (λ i. IsRejected (get_or records i zero_record)) draws)
  exit_code-check_all records snapshots draws filled =
      let (to, from) = exit_code-AllPass log m st pb cp records snapshots draws in
      (
        λ h.
            let (inc, cons, neg) = to h in
            (
              AllPass-All _ records check_record_sound inc,
              AllPass-All _ (pairs_of snapshots) check_pair_sound cons,
              AllPass-All _ draws (λ i. check_negative_sound _ (filled i)) neg,
            ),
        λ (inc, cons, neg). from (
          All-AllPass _ records check_record_complete inc,
          All-AllPass _ (pairs_of snapshots) check_pair_complete cons,
          All-AllPass _ draws (λ i. check_negative_complete _) neg,
        ),
      )
