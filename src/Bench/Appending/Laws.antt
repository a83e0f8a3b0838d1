-- ===== src/Bench/Appending/Laws.antt =====
-- The entries that the correctness suite adds.
use tessera_transparency.Base.{
  ℕ, zero, suc, ◌+◌, ◌≡◌, refl, ◌∙◌, List, [], ◌∷◌, some, Bytes, Bool, false, ◌||◌, Result, ok, err,
  length, get_or, ltb, ◌==◌, arith, Bool-cases, inl, inr, ◌++◌, ap, sym, length-append, append-nil,
  append_assoc, ok-injective,
}
use tessera_transparency.Schema.Host
use tessera_transparency.Schema.Binary
use tessera_transparency.Signer.Keys.{Ed25519, Signer}
use tessera_transparency.Signer.Tokens.{sign_htt, sign_btt}
use tessera_transparency.Log.{Log, Merkle, Appender, hash_leaf}
use mathlib.Core.Path.{subst}
use tessera_transparency.Base.Programs.{lift, continue_ok, lift_ok}
use tessera_transparency.Log.Indexes.{IsSequential}
use tessera_transparency.Bench.Tokens.{make_htt, make_btt}
use tessera_transparency.Bench.Correctness.{EntryRecord, zero_record}
use tessera_transparency.Bench.Appending.{Stop, Waiting, make_token, add_entries}

abbrev pub occurs : ℕ → List ℕ → Bool
occurs k [] = false
occurs k (j ∷ js) = k == j || occurs k js

abbrev pub record_at : List EntryRecord → ℕ → EntryRecord
record_at rs j = get_or rs j zero_record

value_or_nil : Result Stop Bytes → Bytes
value_or_nil (ok b) = b
value_or_nil (err e) = []

module _ (c : Ed25519) (log : Log) (a : Appender log) (m : Merkle) (s : Signer) (now : ℕ → ℕ) where
  -- The bytes of an entry.
  pub token_of : ℕ → Bytes
  token_of i = value_or_nil (make_token c log a m s (now i) i)

  pub make_token_total : (i : ℕ) → make_token c log a m s (now i) i ≡ ok (token_of i)
  unfolding make_token token_of make_htt make_btt sign_htt sign_btt Host.marshal_for_signing
      Host.marshal Binary.marshal_for_signing Binary.marshal value_or_nil
  make_token_total i = elim (Bool-cases (ltb i 500)) [ inl host ↦ rw host | inr binary ↦ rw binary ]

  -- The record of an entry, at its own index.
  abbrev pub record_of : ℕ → EntryRecord
  record_of i = record {
    log_index = i;
    token_data = some (token_of i);
    leaf_hash = hash_leaf m (token_of i);
  }

  -- The bytes of the entries from `i` on, `n` of them.
  abbrev pub tokens_of : ℕ → ℕ → List Bytes
  tokens_of i zero = []
  tokens_of i (suc n) = token_of i ∷ tokens_of (suc i) n

  pub tokens_of-append :
      (i n k j t : ℕ) → j ≡ i + n → t ≡ n + k → tokens_of i n ++ tokens_of j k ≡ tokens_of i t
  tokens_of-append i zero k j t at sum =
      let here : j ≡ i = omega (arith, at) in
      let count : k ≡ t = omega (arith, sum) in
      ap (λ x. tokens_of x k) here ∙ ap (tokens_of i) count
  tokens_of-append i (suc n) k j t at sum =
      let count : suc (n + k) ≡ t = omega (arith, sum) in
      ap (λ l. token_of i ∷ l) (tokens_of-append (suc i) n k j (n + k) (omega (arith, at)) refl)
      ∙ ap (tokens_of i) count

  pub length-tokens_of : (i n : ℕ) → length (tokens_of i n) ≡ n
  length-tokens_of i zero = refl
  length-tokens_of i (suc n) = ap suc (length-tokens_of (suc i) n)

  module _ (seq : IsSequential log a) where
    -- The goroutines of entries that stand behind each other, from an entry on.
    abbrev pub Numbered : ℕ → List (Waiting c log a m s) → Type 0
    Numbered i [] = Unit
    Numbered i (w ∷ ws) = (seq.index w.future ≡ i) × (w.token ≡ token_of i) × Numbered (suc i) ws

    abbrev pub Added : ℕ → ℕ → log.State → log.State → List (Waiting c log a m s) → Type 0
    Added n i st st' ws =
        Numbered i ws × (length ws ≡ n) × (seq.entries st' ≡ seq.entries st ++ tokens_of i n)

    -- The entries that a loop has added are those that the log holds behind the others.
    pub add_entries_sound :
        (n i : ℕ) (st st' : log.State) (ws : List (Waiting c log a m s))
        → length (seq.entries st) ≡ i
        → add_entries c log a m s now n i st ≡ (st', ok ws)
        → Added n i st st' ws
    unfolding add_entries
    add_entries_sound zero i st st' ws at h =
        subst (λ x. Added 0 i st x ws) (ap (λ p. p.0) h)
          (subst (λ x. Added 0 i st st x) (ok-injective (ap (λ p. p.1) h))
            (tt, refl, sym (append-nil (seq.entries st))))
    add_entries_sound (suc n) i st st' ws at h =
        let (token, made, h1) = continue_ok (lift (make_token c log a m s (now i) i) st) _ h in
        let same : token ≡ token_of i =
          ok-injective (sym (lift_ok _ made).0 ∙ make_token_total i) in
        let one = a.add st token in
        let two = add_entries c log a m s now n (suc i) one.0 in
        let (rest, ran, h2) = continue_ok two _ h1 in
        let w : Waiting c log a m s = record { entry = i; token = token; future = one.1 } in
        let held : seq.entries one.0 ≡ seq.entries st ++ token_of i ∷ [] =
          seq.entries-add st token ∙ ap (λ t. seq.entries st ++ t ∷ []) same in
        let long : length (seq.entries one.0) ≡ suc i = omega (
          arith,
          ap (λ (l : List Bytes). length l) held,
          at,
          length-append (seq.entries st) (token_of i ∷ []),
        ) in
        let (numbered, counted, more) = add_entries_sound n (suc i) one.0 two.0 rest long ran in
        subst (λ x. Added (suc n) i st x ws) (ap (λ p. p.0) h2)
          (subst (λ x. Added (suc n) i st two.0 x) (ok-injective (ap (λ p. p.1) h2))
            (
              (seq.index-add st token ∙ at, same, numbered),
              omega arith,
              more
                  ∙ ap (λ l. l ++ tokens_of (suc i) n) held
                  ∙ append_assoc (seq.entries st) (token_of i ∷ []) (tokens_of (suc i) n),
            ))
