-- ===== src/Bench/Appending/Steady.antt =====
-- The batches of the correctness suite over a log that answers.
use tessera_transparency.Base.{
  ℕ, zero, suc, ◌+◌, ◌*◌, ◌≤◌, ◌<◌, ◌≡◌, refl, ap, ◌∙◌, List, [], ◌∷◌, Bytes, ok, some, length,
  length-append, length-set, lt→ltb, get_elem?, arith, set, Option-cases, inl, inr,
}
use tessera_transparency.Base.Programs.{continue}
use tessera_transparency.Signer.Keys.{Ed25519, Signer}
use tessera_transparency.Log.{Log, Merkle, Checkpoint, Appender, hash_leaf}
use tessera_transparency.Bench.Correctness.{EntryRecord, store_record}
use tessera_transparency.Log.Indexes.{IsSequential}
use tessera_transparency.Bench.Appending.{
  Choices, Waiting, write_record, finish, add_entries, finish_all, snapshot, append_batches,
}
use tessera_transparency.Bench.Appending.Laws.{
  make_token_total, token_of, tokens_of, length-tokens_of, Numbered, add_entries_sound,
}
use tessera_transparency.Bench.Appending.Finishing.{
  Numbered-get, finish_all-some, finish_all-none, finish_all_sound,
}

-- Waiting for an entry does not fail, and a checkpoint can be read at any time.
pub record IsSteady (log : Log) (a : Appender log) (seq : IsSequential log a) : Type 0 where
  pub await_ok :
      (st : log.State) (f : a.Future) → (raw : Bytes) × ((a.await st f).1 ≡ ok (seq.index f, raw))
  pub readable :
      (st : log.State)
      → (raw : Bytes) × (cp : Checkpoint) × (log.read_checkpoint st ≡ ok raw)
        × (log.unmarshal_checkpoint raw ≡ ok cp)

module _ (c : Ed25519) (log : Log) (a : Appender log) (m : Merkle) (s : Signer) (ch : Choices)
    (seq : IsSequential log a) (steady : IsSteady log a seq) where
  add_entries_total :
      (n i : ℕ) (st : log.State)
      → (st' : log.State) × (ws : List (Waiting c log a m s)) × (add_entries c log a m s ch.now n i
            st
          ≡ (st', ok ws))
  unfolding add_entries
  add_entries_total zero i st = (st, [], refl)
  add_entries_total (suc n) i st =
      let one = a.add st (token_of c log a m s ch.now i) in
      let (st', ws, rest) = add_entries_total n (suc i) one.0 in
      (
        st',
        record { entry = i; token = token_of c log a m s ch.now i; future = one.1 } ∷ ws,
        rw (make_token_total c log a m s ch.now i) (rw rest),
      )

  finish_total :
      (w : Waiting c log a m s) (rs : List EntryRecord) (st : log.State)
      → seq.index w.future < length rs
      → (st' : log.State) × (rs' : List EntryRecord) × (finish c log a m s w rs st ≡ (st', ok rs'))
        × (length rs' ≡ length rs)
  unfolding finish write_record store_record
  finish_total w rs st h =
      let (raw, awaited) = steady.await_ok st w.future in
      let r : EntryRecord = record {
        log_index = seq.index w.future;
        token_data = some w.token;
        leaf_hash = hash_leaf m w.token;
      } in
      (
        (a.await st w.future).0,
        set rs (seq.index w.future) r,
        rw (awaited, lt→ltb (seq.index w.future) (length rs) h),
        length-set rs (seq.index w.future) r,
      )

  finish_all_total :
      (i : ℕ) (ws : List (Waiting c log a m s)) (order : List ℕ) (rs : List EntryRecord)
      (st : log.State)
      → Numbered c log a m s ch.now seq i ws
      → i + length ws ≤ length rs
      → (st' : log.State) × (rs' : List EntryRecord) × (finish_all c log a m s ws order rs st
          ≡ (st', ok rs'))
  unfolding finish_all
  finish_all_total i ws [] rs st n fits = (st, rs, refl)
  finish_all_total i ws (k ∷ order) rs st n fits = elim (Option-cases (get_elem? ws k)) [
    | inl absent ↦
        let (st', rs', run) = finish_all_total i ws order rs st n fits in
        (st', rs', finish_all-none c log a m s ch.now seq ws k order rs st absent ∙ run)
    | inr (w, found) ↦
        let (inside, placed, token) = Numbered-get c log a m s ch.now seq i k ws w n found in
        let (st1, rs1, ended, same) = finish_total w rs st (omega (arith, inside, placed, fits)) in
        let (st', rs', run) = finish_all_total i ws order rs1 st1 n (omega (arith, same, fits)) in
        (
          st',
          rs',
          finish_all-some c log a m s ch.now seq ws w k order rs st found
              ∙ ap (λ r. continue r (finish_all c log a m s ws order)) ended
              ∙ run,
        )
  ]

  snapshot_total : (st : log.State) → (raw : Bytes) × (snapshot c log a m s st ≡ (st, ok raw))
  unfolding snapshot
  snapshot_total st = let (raw, cp, read, parsed) = steady.readable st in (raw, rw read (rw parsed))

  pub append_batches_total :
      (size n b : ℕ) (rs : List EntryRecord) (st : log.State)
      → length (seq.entries st) ≡ b * size
      → (b + n) * size ≤ length rs
      → (st' : log.State) × (out : List EntryRecord) × (raws : List Bytes) × (append_batches c log a
            m s ch size n b rs st
          ≡ (st', ok (out, raws)))
  unfolding append_batches
  append_batches_total size zero b rs st at fits = (st, rs, [], refl)
  append_batches_total size (suc n) b rs st at fits =
      let i = b * size in
      let next : suc b * size ≡ i + size = grind arith in
      let same : (b + suc n) * size ≡ (suc b + n) * size = ap (λ t. t * size) (omega arith) in
      let wide : i + size ≤ (b + suc n) * size = grind arith in
      let (st1, ws, added) = add_entries_total size i st in
      let (numbered, counted, held) =
        add_entries_sound c log a m s ch.now seq size i st st1 ws at added in
      let (st2, rs2, finished) =
        finish_all_total i ws (ch.order b) rs st1 numbered (omega (arith, wide, counted, fits)) in
      let (kept, (long, right), done) =
        finish_all_sound c log a m s ch.now seq i ws (ch.order b) rs rs2 st1 st2 numbered
          finished in
      let (raw, taken) = snapshot_total st2 in
      let tall : length (seq.entries st2) ≡ suc b * size = omega (
        arith,
        ap (λ (l : List Bytes). length l) (kept ∙ held),
        at,
        next,
        length-append (seq.entries st) (tokens_of c log a m s ch.now i size),
        length-tokens_of c log a m s ch.now i size,
      ) in
      let (st3, out, raws, rest) =
        append_batches_total size n (suc b) rs2 st2 tall (omega (arith, same, long, fits)) in
      (st3, out, raw ∷ raws, rw added (rw finished (rw taken (rw rest))))
