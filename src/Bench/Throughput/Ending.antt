-- ===== src/Bench/Throughput/Ending.antt =====
-- The loop of the throughput benchmark ends, and what it has appended by then.
use tessera_transparency.Base.{
  ℕ, zero, suc, ◌+◌, ◌*◌, ◌^◌, ◌<◌, ◌≡◌, refl, ap, ◌∙◌, List, [], ◌∷◌, ◌++◌, Bytes, Result, ok, err,
  arith, inl, inr, All, Option-cases, get_elem?,
}
use tessera_transparency.Signer.Keys.{Ed25519, Signer}
use tessera_transparency.Log.{Log, Merkle, Failure, Appender, hash_leaf}
use tessera_transparency.Log.Indexes.{IsSequential}
use tessera_transparency.Bench.Leaves.Laws.{confirm_total}
use tessera_transparency.Bench.Pacing.{entries_per_tick}
use tessera_transparency.Bench.Throughput.{
  Event, tick, progress, deadline, finished, Run, start, add_entry, on_tick, on_answer, on_finished,
  on_all, run_loop, wait, run_throughput,
}
use tessera_transparency.Bench.Throughput.Entries.{
  token_of, make_entry_total, IsInOrder, add_entry-IsInOrder, IsInOrder_of_same, Numbered-get,
}
use tessera_transparency.Bench.Throughput.Laws.{confirmed_run}

-- The ticks among events.
unfoldable pub ticks : List Event → ℕ
ticks [] = 0
ticks (tick answers ∷ es) = suc (ticks es)
ticks (progress ∷ es) = ticks es
ticks (deadline ∷ es) = ticks es
ticks (finished k ∷ es) = ticks es

abbrev IsOpen : Event → Type 0
IsOpen (tick answers) = Unit
IsOpen progress = Unit
IsOpen deadline = ⊥
IsOpen (finished k) = Unit

-- Events with no deadline among them.
abbrev pub AreOpen : List Event → Type 0
AreOpen = All IsOpen

module _ (c : Ed25519) (log : Log) (a : Appender log) (m : Merkle) (s : Signer) (now : ℕ → ℕ)
    (seq : IsSequential log a) where
  -- An answer leaves the entries as they are, and its index has room in the table.
  on_answer_lem :
      (token : Bytes) (r : Run c log a m s now) (x : log.State × Result Failure (ℕ × Bytes))
      → ((idx : ℕ) (raw : Bytes) → x.1 ≡ ok (idx, raw) → idx + 1 < 2 ^ 64)
      → (r' : Run c log a m s now) × (on_answer c log a m s now token r x ≡ ok r')
        × (r'.state ≡ x.0)
        × (r'.entry_idx ≡ r.entry_idx)
        × (r'.pending ≡ r.pending)
  unfolding on_answer
  on_answer_lem token r (st, err e) small = (record r { state = st }, refl, refl, refl, refl)
  on_answer_lem token r (st, ok (idx, raw)) small =
      let (ls, stored) = confirm_total idx (hash_leaf m token) r.leaf_hashes (small idx raw refl) in
      (confirmed_run c log a m s now r st ls, rw stored, refl, refl, refl)

  on_finished_lem :
      (k : ℕ) (r : Run c log a m s now)
      → IsInOrder c log a m s now seq r
      → r.entry_idx < 2 ^ 64
      → (r' : Run c log a m s now) × (on_finished c log a m s now k r ≡ ok r')
        × IsInOrder c log a m s now seq r'
        × (r'.entry_idx ≡ r.entry_idx)
  unfolding on_finished
  on_finished_lem k r o small = elim (Option-cases (get_elem? r.pending k)) [
    | inl absent ↦ (r, rw (absent, on_finished), o, refl)
    | inr (w, found) ↦
        let (below, same) = Numbered-get c log a m s now seq 0 k r.pending w o.numbered found in
        let (r', run, left, count, kept) =
          on_answer_lem w.token r (a.await r.state w.future) (λ idx raw got.
            omega (arith, seq.await_index r.state w.future idx raw got, below, o.counted, small)) in
        (
          r',
          rw (found, on_finished) run,
          IsInOrder_of_same c log a m s now seq r r'
              (ap seq.entries left ∙ seq.entries-await r.state w.future) count kept o,
          count,
        )
  ]

  on_all_lem :
      (ks : List ℕ) (r : Run c log a m s now)
      → IsInOrder c log a m s now seq r
      → r.entry_idx < 2 ^ 64
      → (r' : Run c log a m s now) × (on_all c log a m s now ks r ≡ ok r')
        × IsInOrder c log a m s now seq r'
        × (r'.entry_idx ≡ r.entry_idx)
  unfolding on_all
  on_all_lem [] r o small = (r, refl, o, refl)
  on_all_lem (k ∷ ks) r o small =
      let (r1, one, o1, same) = on_finished_lem k r o small in
      let (r', run, o', n) = on_all_lem ks r1 o1 (omega (arith, same, small)) in
      (r', rw one run, o', n ∙ same)

  -- A tick adds its entries, whatever answers come while it does, and never fails.
  on_tick_lem :
      (n : ℕ) (answers : List (List ℕ)) (r : Run c log a m s now)
      → IsInOrder c log a m s now seq r
      → r.entry_idx + n < 2 ^ 64
      → (r' : Run c log a m s now) × (on_tick c log a m s now n answers r ≡ ok r')
        × IsInOrder c log a m s now seq r'
        × (r'.entry_idx ≡ r.entry_idx + n)
  unfolding on_tick add_entry
  on_tick_lem zero answers r o small = (r, refl, o, omega arith)
  on_tick_lem (suc n) [] r o small =
      let token = token_of c log a m s now r.entry_idx in
      let (r', run, o', count) =
        on_tick_lem n [] (add_entry c log a m s now r token)
          (add_entry-IsInOrder c log a m s now seq r token refl o) (omega (arith, small)) in
      (r', rw (make_entry_total c log a m s now r.entry_idx) run, o', omega (arith, count))
  on_tick_lem (suc n) (ks ∷ answers) r o small =
      let (r1, answered, o1, same) = on_all_lem ks r o (omega (arith, small)) in
      let token = token_of c log a m s now r1.entry_idx in
      let (r', run, o', count) =
        on_tick_lem n answers (add_entry c log a m s now r1 token)
          (add_entry-IsInOrder c log a m s now seq r1 token refl o1) (omega (arith, small, same)) in
      (
        r',
        rw answered (rw (make_entry_total c log a m s now r1.entry_idx) run),
        o',
        omega (arith, count, same),
      )

  run_loop_lem :
      (rate : ℕ) (before after : List Event) (r : Run c log a m s now)
      → AreOpen before
      → r.entry_idx + ticks before * entries_per_tick rate < 2 ^ 64
      → IsInOrder c log a m s now seq r
      → (r' : Run c log a m s now) × (run_loop c log a m s now rate (before ++ deadline ∷ after) r
          ≡ ok (r', after))
        × IsInOrder c log a m s now seq r'
        × (r'.entry_idx ≡ r.entry_idx + ticks before * entries_per_tick rate)
  unfolding run_loop ticks
  run_loop_lem rate [] after r h small o = (r, refl, o, omega arith)
  run_loop_lem rate (tick answers ∷ es) after r (_, h) small o =
      let more : suc (ticks es) * entries_per_tick rate
          ≡ entries_per_tick rate + ticks es * entries_per_tick rate =
        grind arith in
      let (r1, one, o1, n1) =
        on_tick_lem (entries_per_tick rate) answers r o (omega (arith, small, more)) in
      let (r', run, o', n') = run_loop_lem rate es after r1 h (omega (arith, small, n1, more)) o1 in
      (r', rw one run, o', omega (arith, n', n1, more))
  run_loop_lem rate (progress ∷ es) after r (_, h) small o = run_loop_lem rate es after r h small o
  run_loop_lem rate (deadline ∷ es) after r (closed, h) small o = absurd closed
  run_loop_lem rate (finished k ∷ es) after r (_, h) small o =
      let (r1, one, o1, same) = on_finished_lem k r o (omega (arith, small)) in
      let (r', run, o', n') = run_loop_lem rate es after r1 h (omega (arith, small, same)) o1 in
      (r', rw one run, o', omega (arith, n', same))

  wait_lem :
      (es : List Event) (r : Run c log a m s now)
      → IsInOrder c log a m s now seq r
      → r.entry_idx < 2 ^ 64
      → (r' : Run c log a m s now) × (wait c log a m s now es r ≡ ok r')
        × IsInOrder c log a m s now seq r'
        × (r'.entry_idx ≡ r.entry_idx)
  unfolding wait
  wait_lem [] r o small = (r, refl, o, refl)
  wait_lem (finished k ∷ es) r o small =
      let (r1, one, o1, same) = on_finished_lem k r o small in
      let (r', run, o', n) = wait_lem es r1 o1 (omega (arith, same, small)) in
      (r', rw one run, o', n ∙ same)
  wait_lem (tick answers ∷ es) r o small = wait_lem es r o small
  wait_lem (progress ∷ es) r o small = wait_lem es r o small
  wait_lem (deadline ∷ es) r o small = wait_lem es r o small

  -- A log holds the entries in the order of the calls of `Add`, waiting for an entry does not end
  -- with another index than the entry's, no entry is in the log before, and the ticks before the
  -- deadline stand for less than 2^64 entries. Then the run ends at the first deadline, whatever the
  -- events before it and the failures of waiting: no signature fails and no goroutine panics. By then
  -- it has added `entriesPerTick` entries for each tick before the deadline and none behind it, and
  -- the log holds exactly these entries, 0, 1, 2, …, each once and in this order.
  pub run_throughput-IsInOrder :
      (rate : ℕ) (before after : List Event) (st : log.State)
      → AreOpen before
      → ticks before * entries_per_tick rate < 2 ^ 64
      → seq.entries st ≡ []
      → (r : Run c log a m s now) × (run_throughput c log a m s now rate
            (before ++ deadline ∷ after)
            st
          ≡ ok r)
        × IsInOrder c log a m s now seq r
        × (r.entry_idx ≡ ticks before * entries_per_tick rate)
  unfolding run_throughput
  run_throughput-IsInOrder rate before after st h small empty =
      let first = start c log a m s now st in
      let nothing : IsInOrder c log a m s now seq first = record {
        held = empty;
        counted = refl;
        numbered = tt;
      } in
      let (r1, run, o1, n1) =
        run_loop_lem rate before after first h (omega (arith, small)) nothing in
      let (r, waited, o, n) = wait_lem after r1 o1 (omega (arith, small, n1)) in
      (r, rw run waited, o, omega (arith, n, n1))
