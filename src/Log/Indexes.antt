-- ===== src/Log/Indexes.antt =====
-- What the programs rely on of a log that they append to.
use tessera_transparency.Base.{ℕ, ◌≡◌, List, [], ◌∷◌, ◌++◌, Bytes, ok, length}
use tessera_transparency.Log.{Log, Appender}

-- The log holds the entries in the order of the calls of `Add`, and nothing else is added to it:
-- entries have the indexes 0, 1, 2, … in this order. Where waiting for an entry does not fail, it
-- ends with the index of the entry.
pub record IsSequential (log : Log) (a : Appender log) : Type 0 where
  pub entries : log.State → List Bytes
  pub index : a.Future → ℕ
  pub entries-add : (st : log.State) (e : Bytes) → entries (a.add st e).0 ≡ entries st ++ e ∷ []
  pub index-add : (st : log.State) (e : Bytes) → index (a.add st e).1 ≡ length (entries st)
  pub entries-await : (st : log.State) (f : a.Future) → entries (a.await st f).0 ≡ entries st
  pub await_index :
      (st : log.State) (f : a.Future) (idx : ℕ) (raw : Bytes)
      → (a.await st f).1 ≡ ok (idx, raw)
      → idx ≡ index f
