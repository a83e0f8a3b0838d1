-- ===== src/Bench/Throughput/Entries.antt =====
-- The entries that the throughput benchmark adds.
use tessera_transparency.Base.{
  ℕ, zero, suc, ◌+◌, ◌%◌, ◌<◌, ◌≡◌, refl, ap, sym, ◌∙◌, List, [], ◌∷◌, ◌++◌, some, Bytes, Result,
  ok, err, length, length-append, get_elem?, ◌==◌, arith, Bool-cases, inl, inr,
}
use mathlib.Core.Path.{subst}
use mathlib.Core.Option.{some-injective}
use tessera_transparency.Schema.Host
use tessera_transparency.Schema.Binary
use tessera_transparency.Signer.Keys.{Ed25519, Signer}
use tessera_transparency.Signer.Tokens.{sign_htt, sign_btt}
use tessera_transparency.Log.{Log, Merkle, Appender}
use tessera_transparency.Log.Indexes.{IsSequential}
use tessera_transparency.Bench.Tokens.{make_htt, make_btt}
use tessera_transparency.Bench.Throughput.{Stop, Run, Pending, make_entry, add_entry}

value_or_nil : Result Stop Bytes → Bytes
value_or_nil (ok b) = b
value_or_nil (err e) = []

module _ (c : Ed25519) (log : Log) (a : Appender log) (m : Merkle) (s : Signer) (now : ℕ → ℕ) where
  -- The bytes of an entry.
  pub token_of : ℕ → Bytes
  token_of i = value_or_nil (make_entry c log a m s now i)

  -- Its token is of the host for an even number, of a binary for an odd one.
  pub make_entry_total : (i : ℕ) → make_entry c log a m s now i ≡ ok (token_of i)
  unfolding make_entry token_of make_htt make_btt sign_htt sign_btt Host.marshal_for_signing
      Host.marshal Binary.marshal_for_signing Binary.marshal value_or_nil
  make_entry_total i = elim (Bool-cases (i % 2 == 0)) [ inl even ↦ rw even | inr odd ↦ rw odd ]

  -- The bytes of the first entries, in their order.
  abbrev pub tokens_of : ℕ → List Bytes
  tokens_of zero = []
  tokens_of (suc n) = tokens_of n ++ token_of n ∷ []

  pub length-tokens_of : (n : ℕ) → length (tokens_of n) ≡ n
  length-tokens_of zero = refl
  length-tokens_of (suc n) =
      omega (arith, length-append (tokens_of n) (token_of n ∷ []), length-tokens_of n)

  module _ (seq : IsSequential log a) where
    -- The goroutines of the entries from `i` on wait for these indexes, with the bytes of the entries.
    abbrev pub Numbered : ℕ → List (Pending c log a m s now) → Type 0
    Numbered i [] = Unit
    Numbered i (w ∷ ws) = (seq.index w.future ≡ i) × (w.token ≡ token_of i) × Numbered (suc i) ws

    Numbered-append :
        (i k : ℕ) (ws : List (Pending c log a m s now)) (w : Pending c log a m s now)
        → Numbered i ws
        → i + length ws ≡ k
        → seq.index w.future ≡ k
        → w.token ≡ token_of k
        → Numbered i (ws ++ w ∷ [])
    Numbered-append i k [] w all e at h =
        let same : k ≡ i = omega (arith, e) in (at ∙ same, h ∙ ap token_of same, tt)
    Numbered-append i k (v ∷ ws) w (hv, made, all) e at h =
        (hv, made, Numbered-append (suc i) k ws w all (omega (arith, e)) at h)

    pub Numbered-get :
        (i k : ℕ) (ws : List (Pending c log a m s now)) (w : Pending c log a m s now)
        → Numbered i ws
        → get_elem? ws k ≡ some w
        → (seq.index w.future < i + length ws) × (w.token ≡ token_of (seq.index w.future))
    Numbered-get i k [] w all found = absurd (ground arith)
    Numbered-get i zero (v ∷ ws) w (hv, made, all) found =
        subst
          (λ (x : Pending c log a m s now).
            (seq.index x.future < i + suc (length ws)) × (x.token ≡ token_of (seq.index x.future)))
          (some-injective _ _ found) (omega (arith, hv), made ∙ ap token_of (sym hv))
    Numbered-get i (suc k) (v ∷ ws) w (hv, made, all) found =
        let (below, same) = Numbered-get (suc i) k ws w all found in (omega (arith, below), same)

    -- The log holds the entries that the loop has added, each once and in their order, and the
    -- goroutines wait for them in this order.
    pub record IsInOrder (r : Run c log a m s now) : Type 0 where
      pub held : seq.entries r.state ≡ tokens_of r.entry_idx
      pub counted : length r.pending ≡ r.entry_idx
      pub numbered : Numbered 0 r.pending

    pub add_entry-IsInOrder :
        (r : Run c log a m s now) (token : Bytes)
        → token ≡ token_of r.entry_idx
        → IsInOrder r
        → IsInOrder (add_entry c log a m s now r token)
    unfolding add_entry
    add_entry-IsInOrder r token made o = record {
      held =
          seq.entries-add r.state token
          ∙ ap (λ l. l ++ token ∷ []) o.held
          ∙ ap (λ t. tokens_of r.entry_idx ++ t ∷ []) made;
      counted = omega (arith, length-append {0} r.pending _, o.counted);
      numbered =
          Numbered-append 0 r.entry_idx r.pending _ o.numbered (omega (arith, o.counted))
            (seq.index-add r.state token
              ∙ ap (λ (l : List Bytes). length l) o.held
              ∙ length-tokens_of r.entry_idx)
            made;
    }

    pub IsInOrder_of_same :
        (r r' : Run c log a m s now)
        → seq.entries r'.state ≡ seq.entries r.state
        → r'.entry_idx ≡ r.entry_idx
        → r'.pending ≡ r.pending
        → IsInOrder r
        → IsInOrder r'
    IsInOrder_of_same r r' log_kept same kept o = record {
      held = log_kept ∙ o.held ∙ ap tokens_of (sym same);
      counted = ap (λ (ws : List (Pending c log a m s now)). length ws) kept ∙ o.counted ∙ sym same;
      numbered = subst (Numbered 0) (sym kept) o.numbered;
    }
