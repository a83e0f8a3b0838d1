-- ===== src/Bench/Throughput.antt =====
-- The loop of `runThroughput`, over the events that its channels and goroutines give: a tick of the
-- ticker, a progress report, the deadline, and a goroutine that has waited for its entry. Where
-- several are ready, `select` may take any: the order of the events is an argument. A tick
-- carries the goroutines that have answers while it adds its entries, those before each entry.
pub mod Entries
pub mod Laws
pub mod Ending
use tessera_transparency.Base.{
  ℕ, zero, suc, ◌+◌, ◌%◌, List, [], ◌∷◌, ◌++◌, Option, none, some, Bytes, Result, ok, err, ◌>>=◌,
  wrap, get_elem?, ◌==◌, if◌then◌else◌,
}
use tessera_transparency.Schema.Fields.{JsonError}
use tessera_transparency.Signer.Keys.{Ed25519, Signer}
use tessera_transparency.Log.{Log, Merkle, Failure, Appender, hash_leaf}
use tessera_transparency.Bench.Leaves.{Leaves, confirm}
use tessera_transparency.Bench.Tokens.{make_htt, make_btt}
use tessera_transparency.Bench.Pacing.{entries_per_tick}

-- `finished k`: the goroutine of entry `k` has an answer.
pub data Event : Type 0 where
  tick : List (List ℕ) → Event
  progress deadline : Event
  finished : ℕ → Event

-- `fatalf` of `makeHTT` or `makeBTT`, and the panic of a write behind the end of `leafHashes`.
pub data Stop : Type 0 where
  unsigned : ℕ → JsonError → Stop
  out_of_range : ℕ → Stop

module _ (c : Ed25519) (log : Log) (a : Appender log) (m : Merkle) (s : Signer) (now : ℕ → ℕ) where
  -- What a goroutine has captured.
  pub record Pending : Type 0 where
    pub token : Bytes
    pub future : a.Future

  -- The variables of the loop: `pending` holds the goroutines of the entries so far, and `entryIdx`
  -- is their number.
  pub record Run : Type 0 where
    pub state : log.State
    pub entry_idx : ℕ
    pub pending : List Pending
    pub confirmed : ℕ
    pub leaf_hashes : Leaves

  abbrev pub start : log.State → Run
  start st = record { state = st; entry_idx = 0; pending = []; confirmed = 0; leaf_hashes = [] }

  unfoldable pub make_entry : ℕ → Result Stop Bytes
  make_entry i =
      wrap (unsigned i) (if i % 2 == 0 then make_htt c m s (now i) i else make_btt c m s (now i) i)

  unfoldable pub add_entry : Run → Bytes → Run
  add_entry r token =
      let (st, future) = a.add r.state token in
      record r {
        state = st;
        entry_idx = suc r.entry_idx;
        pending = r.pending ++ record { token = token; future = future } ∷ [];
      }

  -- The table behind a confirmation, with the entry among the confirmed ones.
  store_leaf : Run → log.State → ℕ → Option Leaves → Result Stop Run
  store_leaf r st idx none = err (out_of_range idx)
  store_leaf r st idx (some ls) =
      ok (record r { state = st; confirmed = suc r.confirmed; leaf_hashes = ls })

  -- Behind `awaiter.Await`: a failure is passed over.
  unfoldable pub on_answer : Bytes → Run → log.State × Result Failure (ℕ × Bytes) → Result Stop Run
  unfolding store_leaf
  on_answer token r (st, err e) = ok (record r { state = st })
  on_answer token r (st, ok (idx, raw)) =
      store_leaf r st idx (confirm idx (hash_leaf m token) r.leaf_hashes)

  unfoldable pub on_finished : ℕ → Run → Result Stop Run
  unfolding on_answer
  on_finished k r = elim (get_elem? r.pending k) [
    | none ↦ ok r
    | some w ↦ on_answer w.token r (a.await r.state w.future)
  ]

  -- Goroutines that have answers, in this order.
  unfoldable pub on_all : List ℕ → Run → Result Stop Run
  unfolding on_finished
  on_all [] r = ok r
  on_all (k ∷ ks) r = on_finished k r >>= on_all ks

  -- The loop over `entriesPerTick`, with the goroutines that have answers before each entry.
  unfoldable pub on_tick : ℕ → List (List ℕ) → Run → Result Stop Run
  unfolding make_entry add_entry on_all
  on_tick zero answers r = ok r
  on_tick (suc n) [] r = make_entry r.entry_idx >>= λ token. on_tick n [] (add_entry r token)
  on_tick (suc n) (ks ∷ answers) r = on_all ks r >>= λ r1.
      make_entry r1.entry_idx >>= λ token. on_tick n answers (add_entry r1 token)

  -- The loop, up to the deadline, with the events that come behind it.
  unfoldable pub run_loop : ℕ → List Event → Run → Result Stop (Run × List Event)
  unfolding on_tick on_finished
  run_loop rate [] r = ok (r, [])
  run_loop rate (tick answers ∷ es) r =
      on_tick (entries_per_tick rate) answers r >>= run_loop rate es
  run_loop rate (progress ∷ es) r = run_loop rate es r
  run_loop rate (deadline ∷ es) r = ok (r, es)
  run_loop rate (finished k ∷ es) r = on_finished k r >>= run_loop rate es

  -- `wg.Wait()`: the goroutines that are left.
  unfoldable pub wait : List Event → Run → Result Stop Run
  unfolding on_finished
  wait [] r = ok r
  wait (finished k ∷ es) r = on_finished k r >>= wait es
  wait (tick answers ∷ es) r = wait es r
  wait (progress ∷ es) r = wait es r
  wait (deadline ∷ es) r = wait es r

  -- `runThroughput`, up to its result.
  unfoldable pub run_throughput : ℕ → List Event → log.State → Result Stop Run
  unfolding run_loop wait
  run_throughput rate es st = run_loop rate es (start st) >>= λ (r, rest). wait rest r
