-- ===== src/Bench/Appending.antt =====
-- `runCorrectnessPhase` behind the set-up of its log: the batches of appends, and the checks behind
-- them. The goroutines of a batch finish in an order that is an argument, as are the clock and the
-- draws of the negative tests.
pub mod Laws
pub mod Finishing
pub mod Batches
pub mod Proved
pub mod Steady
use tessera_transparency.Base.{
  ℕ, zero, suc, ◌+◌, ◌*◌, ◌-◌, List, [], ◌∷◌, ◌++◌, Option, none, some, Bytes, Result, ok, err,
  ◌>>=◌, wrap, length, get_or, get_elem?, replicate, ltb, if◌then◌else◌,
}
use tessera_transparency.Base.Programs
use tessera_transparency.Base.Programs.{Program, lift, call}
use tessera_transparency.Schema.Fields.{JsonError}
use tessera_transparency.Signer.Keys.{Ed25519, Signer}
use tessera_transparency.Log.{Log, Merkle, Checkpoint, Failure, Appender}
use tessera_transparency.Bench.Tokens.{make_htt, make_btt}
use tessera_transparency.Bench.Correctness.{
  EntryRecord, CorrResult, zero_record, store_record, check_all, corr_total, corr_batch,
  corr_snapshots,
}

-- `out_of_range` is the panic of a write beyond `records`.
pub data Stop : Type 0 where
  unsigned : ℕ → JsonError → Stop
  await_failed : ℕ → Failure → Stop
  out_of_range : ℕ → Stop
  checkpoint_failed : Failure → Stop
  builder_failed : Failure → Stop

-- What the environment chooses: the seconds of the clock at each entry, the order in which the
-- goroutines of a batch finish, by their places in the batch, and the indexes that are drawn.
pub record Choices : Type 0 where
  pub now : ℕ → ℕ
  pub order : ℕ → List ℕ
  pub draws : List ℕ

module _ (c : Ed25519) (log : Log) (a : Appender log) (m : Merkle) (s : Signer) where
  -- A goroutine, with what it has captured.
  pub record Waiting : Type 0 where
    pub entry : ℕ
    pub token : Bytes
    pub future : a.Future

  -- The bytes of an entry: the first 500 are host tokens.
  unfoldable pub make_token : ℕ → ℕ → Result Stop Bytes
  make_token now i =
      wrap (unsigned i) (if ltb i 500 then make_htt c m s now i else make_btt c m s now i)

  -- The inner loop: `n` entries from entry `i` on are added, and their goroutines started.
  unfoldable pub add_entries : (ℕ → ℕ) → ℕ → ℕ → Program log.State Stop (List Waiting)
  unfolding make_token
  add_entries now zero i = lift (ok [])
  add_entries now (suc n) i = Programs.◌>>=◌ (lift (make_token (now i) i)) λ token. λ st.
      let (st', future) = a.add st token in
      Programs.◌>>=◌ (add_entries now n (suc i))
        (λ rest. lift (ok (record { entry = i; token = token; future = future } ∷ rest))) st'

  -- `records[idx.Index] = entryRecord{…}`
  unfoldable pub write_record : Bytes → List EntryRecord → ℕ → Result Stop (List EntryRecord)
  unfolding store_record
  write_record token rs idx =
      if ltb idx (length rs) then ok (store_record m idx token rs) else err (out_of_range idx)

  -- What a goroutine does.
  unfoldable pub finish : Waiting → List EntryRecord → Program log.State Stop (List EntryRecord)
  unfolding write_record
  finish w rs =
      Programs.◌>>=◌ (call (await_failed w.entry) (λ st. a.await st w.future))
        λ place. lift (write_record w.token rs place.0)

  -- The goroutines of a batch, as they finish.
  unfoldable pub finish_all :
      List Waiting → List ℕ → List EntryRecord → Program log.State Stop (List EntryRecord)
  unfolding finish
  finish_all ws [] rs = lift (ok rs)
  finish_all ws (k ∷ order) rs = elim (get_elem? ws k) [
    | none ↦ finish_all ws order rs
    | some w ↦ Programs.◌>>=◌ (finish w rs) (finish_all ws order)
  ]

  -- The checkpoint behind a batch, which must be one.
  unfoldable pub snapshot : Program log.State Stop Bytes
  snapshot st = (
    st,
    wrap checkpoint_failed (log.read_checkpoint st) >>= λ raw.
        wrap checkpoint_failed (log.unmarshal_checkpoint raw) >>= λ cp. ok raw,
  )

  -- The loop over the batches, `n` of them from batch `b` on, each of `size` entries.
  unfoldable pub append_batches :
      Choices
      → ℕ
      → ℕ
      → ℕ
      → List EntryRecord
      → Program log.State Stop (List EntryRecord × List Bytes)
  unfolding add_entries finish_all snapshot
  append_batches ch size zero b rs = lift (ok (rs, []))
  append_batches ch size (suc n) b rs = Programs.◌>>=◌ (add_entries ch.now size (b * size)) λ ws.
      Programs.◌>>=◌ (finish_all ws (ch.order b) rs) λ rs'. Programs.◌>>=◌ snapshot λ raw.
        Programs.◌>>=◌ (append_batches ch size n (suc b) rs')
          λ (out, raws). lift (ok (out, raw ∷ raws))

  -- The checks, over the closed log. A failure of `shutdown` is a warning.
  unfoldable pub check_phase :
      List ℕ → List EntryRecord → List Bytes → Program log.State Stop CorrResult
  check_phase draws records snapshots st =
      let st' = (a.shutdown st).0 in
      (
        st',
        wrap checkpoint_failed (log.unmarshal_checkpoint (get_or snapshots (corr_snapshots - 1) []))
            >>= λ cp. wrap builder_failed (log.new_proof_builder st' cp.size) >>= λ pb.
                ok (check_all log m st' pb cp records snapshots draws),
      )

  -- `runCorrectnessPhase`
  unfoldable pub run_correctness : Choices → Program log.State Stop CorrResult
  unfolding append_batches check_phase
  run_correctness ch =
      Programs.◌>>=◌
        (append_batches ch corr_batch corr_snapshots 0 (replicate corr_total zero_record))
        λ (records, snapshots). check_phase ch.draws records snapshots
