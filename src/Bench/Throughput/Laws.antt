-- ===== src/Bench/Throughput/Laws.antt =====
-- The hashes that the throughput benchmark hands to the latency benchmark.
use mathlib.Core.Path.{subst}
use mathlib.Core.Option.{some-injective}
use tessera_transparency.Base.{
  ℕ, zero, suc, ◌<◌, ◌≡◌, refl, ap, sym, ◌∙◌, List, [], ◌∷◌, some, Bytes, Result, ok, err,
  get_elem?, ◌==◌, ==_iff, arith, Bool-cases, Option-cases, inl, inr, ◌⊎◌, bind_ok, ok-injective,
  err-ne-ok, if◌then◌else◌,
}
use tessera_transparency.Signer.Keys.{Ed25519, Signer}
use tessera_transparency.Log.{Log, Merkle, Failure, Appender, hash_leaf}
use tessera_transparency.Log.Indexes.{IsSequential}
use tessera_transparency.Bench.Leaves.{Leaves, confirm}
use tessera_transparency.Bench.Leaves.Laws.{leaf_at, leaf_at-confirm}
use tessera_transparency.Bench.Pacing.{entries_per_tick}
use tessera_transparency.Bench.Throughput.{
  Event, tick, progress, deadline, finished, Run, Pending, start, make_entry, add_entry, on_tick,
  on_answer, on_finished, on_all, run_loop, wait, run_throughput,
}
use tessera_transparency.Bench.Throughput.Entries.{
  token_of, make_entry_total, IsInOrder, add_entry-IsInOrder, IsInOrder_of_same, Numbered-get,
}

module _ (c : Ed25519) (log : Log) (a : Appender log) (m : Merkle) (s : Signer) (now : ℕ → ℕ) where
  -- A run behind a confirmation.
  abbrev pub confirmed_run : Run c log a m s now → log.State → Leaves → Run c log a m s now
  confirmed_run r st ls = record r { state = st; confirmed = suc r.confirmed; leaf_hashes = ls }

  -- An answer is passed over, or confirms its index.
  on_answer_cases :
      (token : Bytes) (r r' : Run c log a m s now) (x : log.State × Result Failure (ℕ × Bytes))
      → on_answer c log a m s now token r x ≡ ok r'
      → (record r { state = x.0 } ≡ r')
        ⊎ ((idx : ℕ) × (raw : Bytes) × (ls : Leaves) × (x.1 ≡ ok (idx, raw))
            × (confirm idx (hash_leaf m token) r.leaf_hashes ≡ some ls)
            × (confirmed_run r x.0 ls ≡ r'))
  unfolding on_answer
  on_answer_cases token r r' (st, err e) h = inl (ok-injective h)
  on_answer_cases token r r' (st, ok (idx, raw)) h =
      elim (Option-cases (confirm idx (hash_leaf m token) r.leaf_hashes)) [
        | inl beyond ↦ absurd (err-ne-ok (rw beyond at h))
        | inr (ls, stored) ↦ inr (idx, raw, ls, refl, stored, ok-injective (rw stored at h))
      ]

  module _ (seq : IsSequential log a) where
    -- The log holds the entries so far in their order, and every hash of the table is the leaf hash
    -- of the entry that the log holds at its index.
    pub record IsTrue (r : Run c log a m s now) : Type 0 where
      pub in_order : IsInOrder c log a m s now seq r
      pub hashes :
          (j : ℕ) (h : Bytes)
          → leaf_at r.leaf_hashes j ≡ some h
          → (j < r.entry_idx) × (h ≡ hash_leaf m (token_of c log a m s now j))

    add_entry-IsTrue :
        (r : Run c log a m s now) (token : Bytes)
        → make_entry c log a m s now r.entry_idx ≡ ok token
        → IsTrue r
        → IsTrue (add_entry c log a m s now r token)
    add_entry-IsTrue r token made t = record {
      in_order =
          add_entry-IsInOrder c log a m s now seq r token
            (ok-injective (sym made ∙ make_entry_total c log a m s now r.entry_idx)) t.in_order;
      hashes =
          unfold add_entry in
          λ j h found. let (below, same) = t.hashes j h found in (omega (arith, below), same);
    }

    -- A goroutine that gets the index of its entry, and writes its hash.
    confirmed_run-IsTrue :
        (w : Pending c log a m s now) (r : Run c log a m s now) (st : log.State) (ls : Leaves)
        → IsTrue r
        → (seq.index w.future < r.entry_idx)
          × (w.token ≡ token_of c log a m s now (seq.index w.future))
        → seq.entries st ≡ seq.entries r.state
        → confirm (seq.index w.future) (hash_leaf m w.token) r.leaf_hashes ≡ some ls
        → IsTrue (confirmed_run r st ls)
    confirmed_run-IsTrue w r st ls t (below, same) kept stored = record {
      in_order =
          IsInOrder_of_same c log a m s now seq r (confirmed_run r st ls) kept refl refl t.in_order;
      hashes = λ j h found.
          written j h
            (sym (leaf_at-confirm idx (hash_leaf m w.token) r.leaf_hashes ls j stored) ∙ found);
    }
      where
        idx : ℕ
        idx = seq.index w.future

        written :
            (j : ℕ) (h : Bytes)
            → (if j == idx then some (hash_leaf m w.token) else leaf_at r.leaf_hashes j) ≡ some h
            → (j < r.entry_idx) × (h ≡ hash_leaf m (token_of c log a m s now j))
        written j h found = elim (Bool-cases (j == idx)) [
          | inl here ↦
              let at : j ≡ idx = (==_iff j idx).0 here in
              (
                omega (arith, at, below),
                sym (some-injective _ _ (rw here at found))
                    ∙ ap (λ t. hash_leaf m t) (same ∙ ap (token_of c log a m s now) (sym at)),
              )
          | inr other ↦ t.hashes j h (rw other at found)
        ]

    on_answer-IsTrue :
        (w : Pending c log a m s now) (r r' : Run c log a m s now)
        → IsTrue r
        → (seq.index w.future < r.entry_idx)
          × (w.token ≡ token_of c log a m s now (seq.index w.future))
        → on_answer c log a m s now w.token r (a.await r.state w.future) ≡ ok r'
        → IsTrue r'
    on_answer-IsTrue w r r' t here h =
        let x = a.await r.state w.future in
        let kept = seq.entries-await r.state w.future in
        elim (on_answer_cases w.token r r' x h) [
          | inl passed ↦ subst IsTrue passed (record {
            in_order =
                IsInOrder_of_same c log a m s now seq r (record r { state = x.0 }) kept refl refl
                  t.in_order;
            hashes = t.hashes;
          })
          | inr (idx, raw, ls, got, stored, ran) ↦
              let at = seq.await_index r.state w.future idx raw got in
              subst IsTrue ran (
                confirmed_run-IsTrue w r x.0 ls t here kept
                  (subst (λ n. confirm n (hash_leaf m w.token) r.leaf_hashes ≡ some ls) at stored))
        ]

    on_finished-IsTrue :
        (k : ℕ) (r r' : Run c log a m s now)
        → IsTrue r
        → on_finished c log a m s now k r ≡ ok r'
        → IsTrue r'
    unfolding on_finished
    on_finished-IsTrue k r r' t h = elim (Option-cases (get_elem? r.pending k)) [
      | inl absent ↦ subst IsTrue (ok-injective (rw (absent, on_finished) at h)) t
      | inr (w, found) ↦
          let (below, same) =
            Numbered-get c log a m s now seq 0 k r.pending w t.in_order.numbered found in
          on_answer-IsTrue w r r' t (omega (arith, below, t.in_order.counted), same)
            (rw (found, on_finished) at h)
    ]

    on_all-IsTrue :
        (ks : List ℕ) (r r' : Run c log a m s now)
        → IsTrue r
        → on_all c log a m s now ks r ≡ ok r'
        → IsTrue r'
    unfolding on_all
    on_all-IsTrue [] r r' t h = subst IsTrue (ok-injective h) t
    on_all-IsTrue (k ∷ ks) r r' t h =
        let (r1, one, more) = bind_ok (on_finished c log a m s now k r) _ h in
        on_all-IsTrue ks r1 r' (on_finished-IsTrue k r r1 t one) more

    on_tick-IsTrue :
        (n : ℕ) (answers : List (List ℕ)) (r r' : Run c log a m s now)
        → IsTrue r
        → on_tick c log a m s now n answers r ≡ ok r'
        → IsTrue r'
    unfolding on_tick
    on_tick-IsTrue zero answers r r' t h = subst IsTrue (ok-injective h) t
    on_tick-IsTrue (suc n) [] r r' t h =
        let (token, made, rest) = bind_ok (make_entry c log a m s now r.entry_idx) _ h in
        on_tick-IsTrue n [] (add_entry c log a m s now r token) r' (add_entry-IsTrue r token made t)
          rest
    on_tick-IsTrue (suc n) (ks ∷ answers) r r' t h =
        let (r1, answered, h1) = bind_ok (on_all c log a m s now ks r) _ h in
        let (token, made, rest) = bind_ok (make_entry c log a m s now r1.entry_idx) _ h1 in
        on_tick-IsTrue n answers (add_entry c log a m s now r1 token) r'
          (add_entry-IsTrue r1 token made (on_all-IsTrue ks r r1 t answered)) rest

    run_loop-IsTrue :
        (rate : ℕ) (es rest : List Event) (r r' : Run c log a m s now)
        → IsTrue r
        → run_loop c log a m s now rate es r ≡ ok (r', rest)
        → IsTrue r'
    unfolding run_loop
    run_loop-IsTrue rate [] rest r r' t h = subst IsTrue (ap (λ p. p.0) (ok-injective h)) t
    run_loop-IsTrue rate (tick answers ∷ es) rest r r' t h =
        let (r1, one, more) =
          bind_ok (on_tick c log a m s now (entries_per_tick rate) answers r) _ h in
        run_loop-IsTrue rate es rest r1 r' (on_tick-IsTrue _ answers r r1 t one) more
    run_loop-IsTrue rate (progress ∷ es) rest r r' t h = run_loop-IsTrue rate es rest r r' t h
    run_loop-IsTrue rate (deadline ∷ es) rest r r' t h =
        subst IsTrue (ap (λ p. p.0) (ok-injective h)) t
    run_loop-IsTrue rate (finished k ∷ es) rest r r' t h =
        let (r1, one, more) = bind_ok (on_finished c log a m s now k r) _ h in
        run_loop-IsTrue rate es rest r1 r' (on_finished-IsTrue k r r1 t one) more

    wait-IsTrue :
        (es : List Event) (r r' : Run c log a m s now)
        → IsTrue r
        → wait c log a m s now es r ≡ ok r'
        → IsTrue r'
    unfolding wait
    wait-IsTrue [] r r' t h = subst IsTrue (ok-injective h) t
    wait-IsTrue (finished k ∷ es) r r' t h =
        let (r1, one, more) = bind_ok (on_finished c log a m s now k r) _ h in
        wait-IsTrue es r1 r' (on_finished-IsTrue k r r1 t one) more
    wait-IsTrue (tick answers ∷ es) r r' t h = wait-IsTrue es r r' t h
    wait-IsTrue (progress ∷ es) r r' t h = wait-IsTrue es r r' t h
    wait-IsTrue (deadline ∷ es) r r' t h = wait-IsTrue es r r' t h

    -- A log holds the entries in the order of the calls of `Add`, waiting for an entry does not end
    -- with another index than the entry's, and no entry is in the log before. If a run ends, then the
    -- log holds the entries that the run has added, in their order, and every hash in its table is the
    -- leaf hash of the entry that the log holds at the hash's index, whatever the order in which ticks
    -- and answers came, and whichever answers were failures.
    pub run_throughput-IsTrue :
        (rate : ℕ) (es : List Event) (st : log.State) (r : Run c log a m s now)
        → seq.entries st ≡ []
        → run_throughput c log a m s now rate es st ≡ ok r
        → IsTrue r
    unfolding run_throughput
    run_throughput-IsTrue rate es st r empty h =
        let nothing : IsTrue (start c log a m s now st) = record {
          in_order = record { held = empty; counted = refl; numbered = tt };
          hashes = λ j h' found. absurd (ground arith);
        } in
        let ((r1, rest), run, last) =
          bind_ok (run_loop c log a m s now rate es (start c log a m s now st)) _ h in
        wait-IsTrue rest r1 r (run_loop-IsTrue rate es rest _ r1 nothing run) last
