-- ===== src/Bench/Appending/Batches.antt =====
-- The records that the correctness suite checks.
use tessera_transparency.Base.{
  ℕ, zero, suc, ◌+◌, ◌*◌, ◌-◌, ◌<◌, ◌≡◌, refl, ap, sym, ◌∙◌, List, [], ◌∷◌, Bytes, true, ok, length,
  replicate, length-replicate, ltb, ltb→lt, arith, Bool-cases, inl, inr, ok-injective, ◌++◌,
  append-nil, append_assoc, length-append,
}
use mathlib.Core.Path.{subst}
use tessera_transparency.Base.Programs.{continue_ok}
use tessera_transparency.Signer.Keys.{Ed25519, Signer}
use tessera_transparency.Log.{Log, Merkle, Appender}
use tessera_transparency.Bench.Correctness.{
  EntryRecord, zero_record, corr_total, corr_batch, corr_snapshots,
}
use tessera_transparency.Log.Indexes.{IsSequential}
use tessera_transparency.Bench.Appending.{
  Choices, add_entries, finish_all, snapshot, append_batches,
}
use tessera_transparency.Bench.Appending.Laws.{
  occurs, record_at, record_of, tokens_of, tokens_of-append, length-tokens_of, add_entries_sound,
}
use tessera_transparency.Bench.Appending.Finishing.{finish_all_sound, snapshot_sound}

-- Every goroutine of a batch finishes.
abbrev pub Finishes : Choices → ℕ → Type 0
Finishes ch size = (b k : ℕ) → k < size → occurs k (ch.order b) ≡ true

module _ (c : Ed25519) (log : Log) (a : Appender log) (m : Merkle) (s : Signer) (ch : Choices)
    (seq : IsSequential log a) where
  -- The first records are those of the entries at their indexes.
  abbrev pub AreRight : ℕ → List EntryRecord → Type 0
  AreRight n rs = (j : ℕ) → j < n → record_at rs j ≡ record_of c log a m s ch.now j

  -- What the batches leave: the table, with the entries so far at their indexes, and the log, with
  -- the new entries behind the old ones.
  pub record Appended (size n b : ℕ) (rs out : List EntryRecord) (raws : List Bytes)
      (st st' : log.State) : Type 0 where
    pub long : length out ≡ length rs
    pub right : AreRight ((b + n) * size) out
    pub counted : length raws ≡ n
    pub held :
        seq.entries st' ≡ seq.entries st ++ tokens_of c log a m s ch.now (b * size) (n * size)

  AreRight-batch :
      (i n : ℕ) (rs out : List EntryRecord)
      → AreRight i rs
      → ((j : ℕ)
          → record_at rs j ≡ record_of c log a m s ch.now j
          → record_at out j ≡ record_of c log a m s ch.now j)
      → ((k : ℕ) → k < n → record_at out (i + k) ≡ record_of c log a m s ch.now (i + k))
      → AreRight (i + n) out
  AreRight-batch i n rs out right keeps done j h = elim (Bool-cases (ltb j i)) [
    | inl old ↦ keeps j (right j (ltb→lt j i old))
    | inr new ↦
        let at : i + (j - i) ≡ j = ground arith in
        subst (λ x. record_at out x ≡ record_of c log a m s ch.now x) at
          (done (j - i) (ground arith))
  ]

  AreRight-of_eq : (n k : ℕ) (rs : List EntryRecord) → n ≡ k → AreRight n rs → AreRight k rs
  AreRight-of_eq n k rs e right j h = right j (omega (arith, e))

  -- A batch, between the log before it and the log behind the batches that are left.
  Appended-next :
      (size n b : ℕ) (rs rs1 out : List EntryRecord) (raw : Bytes) (raws : List Bytes)
      (st st1 st' : log.State)
      → length rs1 ≡ length rs
      → seq.entries st1 ≡ seq.entries st ++ tokens_of c log a m s ch.now (b * size) size
      → Appended size n (suc b) rs1 out raws st1 st'
      → Appended size (suc n) b rs out (raw ∷ raws) st st'
  Appended-next size n b rs rs1 out raw raws st st1 st' same held1 rest =
      let whole : (b + suc n) * size ≡ (suc b + n) * size = ap (λ t. t * size) (omega arith) in
      let old = seq.entries st in
      let tokens = tokens_of c log a m s ch.now in
      record {
        long = rest.long ∙ same;
        right = AreRight-of_eq ((suc b + n) * size) ((b + suc n) * size) out (sym whole) rest.right;
        counted = ap suc rest.counted;
        held =
            rest.held
            ∙ ap (λ l. l ++ tokens (suc b * size) (n * size)) held1
            ∙ append_assoc old (tokens (b * size) size) (tokens (suc b * size) (n * size))
            ∙ ap (λ l. old ++ l)
                (tokens_of-append c log a m s ch.now (b * size) size (n * size) (suc b * size)
                  (suc n * size) (grind arith) (grind arith));
      }

  Appended-none :
      (size b : ℕ) (rs : List EntryRecord) (st : log.State)
      → AreRight (b * size) rs
      → Appended size 0 b rs rs [] st st
  Appended-none size b rs st right = record {
    long = refl;
    right = λ j below. right j (grind arith);
    counted = refl;
    held =
        sym (append-nil (seq.entries st))
        ∙ ap (λ k. seq.entries st ++ tokens_of c log a m s ch.now (b * size) k) nothing;
  }
    where
      nothing : 0 ≡ 0 * size
      nothing = grind arith

  append_batches_sound :
      (size n b : ℕ) (rs out : List EntryRecord) (raws : List Bytes) (st st' : log.State)
      → Finishes ch size
      → length (seq.entries st) ≡ b * size
      → AreRight (b * size) rs
      → append_batches c log a m s ch size n b rs st ≡ (st', ok (out, raws))
      → Appended size n b rs out raws st st'
  unfolding append_batches
  append_batches_sound size zero b rs out raws st st' all at right h =
      subst (λ x. Appended size 0 b rs out raws st x) (ap (λ p. p.0) h)
        (subst (λ (x : List EntryRecord × List Bytes). Appended size 0 b rs x.0 x.1 st st)
          (ok-injective (ap (λ p. p.1) h)) (Appended-none size b rs st right))
  append_batches_sound size (suc n) b rs out raws st st' all at right h =
      let now = ch.now in
      let i = b * size in
      let next : suc b * size ≡ i + size = grind arith in
      let one = add_entries c log a m s now size i st in
      let (ws, added, h1) = continue_ok one _ h in
      let (numbered, counted, held) =
        add_entries_sound c log a m s now seq size i st one.0 ws at added in
      let two = finish_all c log a m s ws (ch.order b) rs one.0 in
      let (rs1, ended, h2) = continue_ok two _ h1 in
      let (kept, right1, done) =
        finish_all_sound c log a m s now seq i ws (ch.order b) rs rs1 one.0 two.0 numbered ended in
      let three = snapshot c log a m s two.0 in
      let (raw, taken, h3) = continue_ok three _ h2 in
      let here = snapshot_sound c log a m s now seq two.0 three.0 raw taken in
      let four = append_batches c log a m s ch size n (suc b) rs1 three.0 in
      let ((out1, raws1), ran, h4) = continue_ok four _ h3 in
      let held1 : seq.entries three.0 ≡ seq.entries st ++ tokens_of c log a m s now i size =
        ap seq.entries (sym here) ∙ kept ∙ held in
      let tall : length (seq.entries three.0) ≡ suc b * size = omega (
        arith,
        ap (λ (l : List Bytes). length l) held1,
        at,
        next,
        length-append (seq.entries st) (tokens_of c log a m s now i size),
        length-tokens_of c log a m s now i size,
      ) in
      let good : AreRight (suc b * size) rs1 =
        AreRight-of_eq (i + size) (suc b * size) rs1 (sym next) (
          AreRight-batch i size rs rs1 right right1.1
            (λ k below. done k (omega (arith, counted, below)) (all b k below))) in
      let rest =
        append_batches_sound size n (suc b) rs1 out1 raws1 three.0 four.0 all tall good ran in
      subst (λ x. Appended size (suc n) b rs out raws st x) (ap (λ p. p.0) h4)
        (subst (λ (x : List EntryRecord × List Bytes). Appended size (suc n) b rs x.0 x.1 st four.0)
          (ok-injective (ap (λ p. p.1) h4))
          (Appended-next size n b rs rs1 out1 raw raws1 st three.0 four.0 right1.0 held1 rest))

  -- A log holds the entries in the order of the calls of `Add`, waiting for an entry does not end
  -- with another index than the entry's, no entry is in the log before, and every goroutine of a
  -- batch finishes. If the ten batches end, then the log holds the bytes of the entries 0 to 999, in
  -- this order, whatever the order in which the goroutines of a batch finish; there are 1000 records
  -- and ten snapshots, and each record holds its own place as its index, the bytes of the entry that
  -- the log holds at this place, and their leaf hash.
  pub append_batches-records :
      (st st' : log.State) (records : List EntryRecord) (snapshots : List Bytes)
      → Finishes ch corr_batch
      → seq.entries st ≡ []
      → append_batches c log a m s ch corr_batch corr_snapshots 0
          (replicate corr_total zero_record)
          st
        ≡ (st', ok (records, snapshots))
      → (length records ≡ corr_total)
        × AreRight corr_total records
        × (length snapshots ≡ corr_snapshots)
        × (seq.entries st' ≡ tokens_of c log a m s ch.now 0 corr_total)
  append_batches-records st st' records snapshots all empty h =
      let r =
        append_batches_sound corr_batch corr_snapshots 0 (replicate corr_total zero_record) records
          snapshots st st' all (ap (λ (l : List Bytes). length l) empty)
          (λ j below. absurd (omega arith)) h in
      (
        r.long ∙ length-replicate corr_total zero_record,
        r.right,
        r.counted,
        r.held ∙ ap (λ l. l ++ tokens_of c log a m s ch.now 0 corr_total) empty,
      )
