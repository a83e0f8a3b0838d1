-- ===== src/Bench/Appending/Finishing.antt =====
-- The goroutines of a batch, in the order in which they finish.
use tessera_transparency.Base.{
  ℕ, zero, suc, ◌+◌, ◌<◌, ◌≡◌, refl, ◌≢◌, ap, sym, ◌∙◌, List, [], ◌∷◌, none, some, Bytes, true, ok,
  length, length-set, get_elem?, set, ltb, ltb→lt, ◌==◌, arith, Bool-cases, inl, inr, ==_iff,
  ok-injective, err-ne-ok, Option-cases,
}
use mathlib.Core.Path.{subst}
use tessera_transparency.Base.Programs.{continue, continue_ok, lift_ok, call, call_ok}
use mathlib.Core.Option.{some-injective}
use tessera_transparency.Signer.Keys.{Ed25519, Signer}
use tessera_transparency.Log.{Log, Merkle, Appender, hash_leaf}
use tessera_transparency.Bench.Correctness.{EntryRecord, store_record}
use tessera_transparency.Bench.Appending.{
  await_failed, Waiting, write_record, finish, finish_all, snapshot,
}
use tessera_transparency.Log.Indexes.{IsSequential}
use tessera_transparency.Bench.Appending.Laws.{occurs, record_at, token_of, record_of, Numbered}

record_at-set_same :
    (rs : List EntryRecord) (i : ℕ) (r : EntryRecord) → i < length rs → record_at (set rs i r) i ≡ r
record_at-set_same [] i r h = absurd (omega arith)
record_at-set_same (x ∷ rs) zero r h = refl
record_at-set_same (x ∷ rs) (suc i) r h = record_at-set_same rs i r (omega arith)

record_at-set_other :
    (rs : List EntryRecord) (i j : ℕ) (r : EntryRecord)
    → j ≢ i
    → record_at (set rs i r) j ≡ record_at rs j
record_at-set_other [] i j r h = refl
record_at-set_other (x ∷ rs) zero zero r h = absurd (h refl)
record_at-set_other (x ∷ rs) zero (suc j) r h = refl
record_at-set_other (x ∷ rs) (suc i) zero r h = refl
record_at-set_other (x ∷ rs) (suc i) (suc j) r h = record_at-set_other rs i j r (λ e. h (ap suc e))

get_elem?_inside : {A : Type 0} (xs : List A) (k : ℕ) → k < length xs → get_elem? xs k ≢ none
get_elem?_inside [] k h e = absurd (omega arith)
get_elem?_inside (x ∷ xs) zero h e = absurd (ground arith)
get_elem?_inside (x ∷ xs) (suc k) h e = get_elem?_inside xs k (omega arith) e

module _ (c : Ed25519) (log : Log) (a : Appender log) (m : Merkle) (s : Signer) (now : ℕ → ℕ)
    (seq : IsSequential log a) where
  -- What finishing leaves of the table: its length, and every record that was right.
  abbrev pub Keeps : List EntryRecord → List EntryRecord → Type 0
  Keeps rs rs' =
      (length rs' ≡ length rs)
      × ((j : ℕ)
          → record_at rs j ≡ record_of c log a m s now j
          → record_at rs' j ≡ record_of c log a m s now j)

  -- A write of the record of an entry, at its index.
  Keeps-store :
      (rs : List EntryRecord) (i : ℕ)
      → i < length rs
      → Keeps rs (set rs i (record_of c log a m s now i))
        × (record_at (set rs i (record_of c log a m s now i)) i ≡ record_of c log a m s now i)
  Keeps-store rs i h =
      let same = record_at-set_same rs i (record_of c log a m s now i) h in
      (
        (
          length-set rs i (record_of c log a m s now i),
          λ j right. elim (Bool-cases (j == i)) [
            | inl at ↦ rw ((==_iff j i).0 at) same
            | inr off ↦
                record_at-set_other rs i j (record_of c log a m s now i) (λ e. ground arith) ∙ right
          ],
        ),
        same,
      )

  write_record_sound :
      (token : Bytes) (rs rs' : List EntryRecord) (idx : ℕ)
      → write_record c log a m s token rs idx ≡ ok rs'
      → (idx < length rs)
        × (set rs idx
              (record { log_index = idx; token_data = some token; leaf_hash = hash_leaf m token })
            ≡ rs')
  unfolding write_record store_record
  write_record_sound token rs rs' idx h = elim (Bool-cases (ltb idx (length rs))) [
    | inl inside ↦ (ltb→lt idx (length rs) inside, ok-injective (rw inside at h))
    | inr beyond ↦ absurd (err-ne-ok (rw beyond at h))
  ]

  -- A goroutine that ends has written the record of its entry, at its index.
  finish_sound :
      (w : Waiting c log a m s) (i : ℕ) (rs rs' : List EntryRecord) (st st' : log.State)
      → seq.index w.future ≡ i
      → w.token ≡ token_of c log a m s now i
      → finish c log a m s w rs st ≡ (st', ok rs')
      → (seq.entries st' ≡ seq.entries st)
        × (i < length rs)
        × (set rs i (record_of c log a m s now i) ≡ rs')
  unfolding finish
  finish_sound w i rs rs' st st' placed same h =
      let answer = a.await st w.future in
      let (place, waited, h1) =
        continue_ok (call (await_failed w.entry) (λ x. a.await x w.future) st) _ h in
      let at : place.0 ≡ i =
        seq.await_index st w.future place.0 place.1
          (ap (λ p. p.1) (call_ok (await_failed w.entry) answer waited))
        ∙ placed in
      let (written, left) = lift_ok (write_record c log a m s w.token rs place.0) h1 in
      let (inside, stored) = write_record_sound w.token rs rs' place.0 written in
      (
        ap seq.entries (sym left) ∙ seq.entries-await st w.future,
        subst (λ n. n < length rs) at inside,
        subst
            (λ n.
              set rs n (record {
                log_index = n;
                token_data = some (token_of c log a m s now i);
                leaf_hash = hash_leaf m (token_of c log a m s now i);
              })
              ≡ rs')
            at
            (subst
              (λ t.
                set rs place.0
                  (record { log_index = place.0; token_data = some t; leaf_hash = hash_leaf m t })
                ≡ rs')
              same stored),
      )

  pub Numbered-get :
      (i k : ℕ) (ws : List (Waiting c log a m s)) (w : Waiting c log a m s)
      → Numbered c log a m s now seq i ws
      → get_elem? ws k ≡ some w
      → (k < length ws)
        × (seq.index w.future ≡ i + k)
        × (w.token ≡ token_of c log a m s now (i + k))
  Numbered-get i k [] w n found = absurd (ground arith)
  Numbered-get i zero (v ∷ ws) w (placed, token, n) found =
      let same : v ≡ w = some-injective _ _ found in
      (
        omega arith,
        subst (λ (x : Waiting c log a m s). seq.index x.future ≡ i + 0) same
            (omega (arith, placed)),
        subst (λ (x : Waiting c log a m s). x.token ≡ token_of c log a m s now (i + 0)) same
            (token ∙ ap (token_of c log a m s now) (omega arith)),
      )
  Numbered-get i (suc k) (v ∷ ws) w (placed, token, n) found =
      let (inside, at, same) = Numbered-get (suc i) k ws w n found in
      (omega (arith, inside), omega (arith, at), same ∙ ap (token_of c log a m s now) (omega arith))

  pub finish_all-some :
      (ws : List (Waiting c log a m s)) (w : Waiting c log a m s) (k : ℕ) (order : List ℕ)
      (rs : List EntryRecord) (st : log.State)
      → get_elem? ws k ≡ some w
      → finish_all c log a m s ws (k ∷ order) rs st
        ≡ continue (finish c log a m s w rs st) (finish_all c log a m s ws order)
  unfolding finish_all
  finish_all-some ws w k order rs st found = rw (found, finish_all)

  pub finish_all-none :
      (ws : List (Waiting c log a m s)) (k : ℕ) (order : List ℕ) (rs : List EntryRecord)
      (st : log.State)
      → get_elem? ws k ≡ none
      → finish_all c log a m s ws (k ∷ order) rs st ≡ finish_all c log a m s ws order rs st
  unfolding finish_all
  finish_all-none ws k order rs st e = rw (e, finish_all)

  -- The table after the goroutines have finished.
  abbrev pub Finished :
      ℕ
      → List (Waiting c log a m s)
      → List ℕ
      → List EntryRecord
      → List EntryRecord
      → log.State
      → log.State
      → Type 0
  Finished i ws order rs rs' st st' =
      (seq.entries st' ≡ seq.entries st)
      × Keeps rs rs'
      × ((k : ℕ)
          → k < length ws
          → occurs k order ≡ true
          → record_at rs' (i + k) ≡ record_of c log a m s now (i + k))

  pub finish_all_sound :
      (i : ℕ) (ws : List (Waiting c log a m s)) (order : List ℕ) (rs rs' : List EntryRecord)
      (st st' : log.State)
      → Numbered c log a m s now seq i ws
      → finish_all c log a m s ws order rs st ≡ (st', ok rs')
      → Finished i ws order rs rs' st st'
  unfolding finish_all
  finish_all_sound i ws [] rs rs' st st' n h =
      let same : rs ≡ rs' = ok-injective (ap (λ p. p.1) h) in
      (
        ap seq.entries (sym (ap (λ p. p.0) h)),
        subst (Keeps rs) same (refl, λ j right. right),
        λ k inside absent. absurd (ground arith),
      )
  finish_all_sound i ws (k ∷ order) rs rs' st st' n h = elim (Option-cases (get_elem? ws k)) [
    | inl absent ↦
        let (left, kept, done) =
          finish_all_sound i ws order rs rs' st st' n
            (sym (finish_all-none ws k order rs st absent) ∙ h) in
        (
          left,
          kept,
          λ j inside present. elim (Bool-cases (j == k)) [
            | inl at ↦ absurd (
                get_elem?_inside ws k (subst (λ x. x < length ws) ((==_iff j k).0 at) inside)
                  absent)
            | inr off ↦ done j inside (rw off at present)
          ],
        )
    | inr (w, found) ↦
        let (inside, placed, token) = Numbered-get i k ws w n found in
        let one = finish c log a m s w rs st in
        let (rs1, ended, h1) =
          continue_ok one (finish_all c log a m s ws order)
            (sym (finish_all-some ws w k order rs st found) ∙ h) in
        let (left1, room, stored) = finish_sound w (i + k) rs rs1 st one.0 placed token ended in
        let (kept1, written) = Keeps-store rs (i + k) room in
        let kept : Keeps rs rs1 = subst (Keeps rs) stored kept1 in
        let here : record_at rs1 (i + k) ≡ record_of c log a m s now (i + k) =
          subst (λ t. record_at t (i + k) ≡ record_of c log a m s now (i + k)) stored written in
        let (left', kept', done) = finish_all_sound i ws order rs1 rs' one.0 st' n h1 in
        (
          left' ∙ left1,
          (kept'.0 ∙ kept.0, λ j right. kept'.1 j (kept.1 j right)),
          λ j before present. elim (Bool-cases (j == k)) [
            | inl at ↦ kept'.1 (i + j) (
                subst (λ x. record_at rs1 (i + x) ≡ record_of c log a m s now (i + x))
                  (sym ((==_iff j k).0 at)) here)
            | inr off ↦ done j before (rw off at present)
          ],
        )
  ]

  pub snapshot_sound :
      (st st' : log.State) (raw : Bytes) → snapshot c log a m s st ≡ (st', ok raw) → st ≡ st'
  unfolding snapshot
  snapshot_sound st st' raw h = ap (λ p. p.0) h
