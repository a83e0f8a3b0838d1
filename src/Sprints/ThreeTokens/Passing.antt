-- ===== src/Sprints/ThreeTokens/Passing.antt =====
-- What can stop `main` of cmd/sprint2, for tokens that pass their own checks.
use tessera_transparency.Base.{
  ℕ, ◌<◌, ◌≡◌, refl, [], ◌∷◌, arith, Bytes, Result, ok, err, ◌>>=◌, length, wrap, List, Bool-cases,
  inl, inr, ltb, ◌/◌, lt→ltb, err-ne-ok,
}
use tessera_transparency.Base.Programs.{Program, continue}
use tessera_transparency.Json.Parse.{parse, read_value}
use tessera_transparency.Schema.Fields.{bytes_of, read_struct}
use tessera_transparency.Signer.Tokens.Verdict.{verify_htt_iff}
use tessera_transparency.Schema.Host
use tessera_transparency.Schema.Host.{HostToken}
use tessera_transparency.Signer.Keys.{Ed25519, Signer}
use tessera_transparency.Signer.Tokens.{host_kind, verify_htt}
use tessera_transparency.Log.{Log, Merkle, Checkpoint, Failure, hash_leaf}
use tessera_transparency.Sprints.ThreeTokens.Laws.{IsPrepared}
use tessera_transparency.Sprints.ThreeTokens.{
  Stop, fatal, unsigned, nil_token, out_of_range, self_check, inclusion_failed, consistency_failed,
  tampering_accepted, forgery_accepted, Entry, refused, within, proof_or_nil, tampered, forged,
  refuse_tampered, refuse_forged, check_entries, check_growth, check_all,
}

-- A stop that is not a check of the program's own tokens.
abbrev pub IsForeign : Stop → Type 0
IsForeign (unsigned e) = ⊥
IsForeign nil_token = ⊥
IsForeign out_of_range = ⊥
IsForeign (self_check e) = ⊥
IsForeign (fatal e) = Unit
IsForeign (inclusion_failed name) = Unit
IsForeign consistency_failed = Unit
IsForeign tampering_accepted = Unit
IsForeign forgery_accepted = Unit

-- A result that is no error, or one from outside.
abbrev pub Passes : {A : Type 0} → Result Stop A → Type 0
Passes (ok a) = Unit
Passes (err e) = IsForeign e

Passes-bind :
    {A B : Type 0} (r : Result Stop A) (f : A → Result Stop B)
    → Passes r
    → ((a : A) → r ≡ ok a → Passes (f a))
    → Passes (r >>= f)
Passes-bind (ok a) f h k = k a refl
Passes-bind (err e) f h k = h

pub Passes-wrap :
    {E A : Type 0} (g : E → Stop) (r : Result E A) → ((e : E) → IsForeign (g e)) → Passes (wrap g r)
Passes-wrap g (ok a) h = tt
Passes-wrap g (err e) h = h e

pub Passes-continue :
    {S A B : Type 0} (r : S × Result Stop A) (f : A → Program S Stop B)
    → Passes r.1
    → ((a : A) → r ≡ (r.0, ok a) → Passes (f a r.0).1)
    → Passes (continue r f).1
Passes-continue (st, ok a) f h k = k a refl
Passes-continue (st, err e) f h k = h

Passes-refused :
    {E A : Type 0} (stop : Stop) (r : Result E A) → IsForeign stop → Passes (refused stop r)
Passes-refused stop (ok a) h = h
Passes-refused stop (err e) h = tt

Passes-within : (i : ℕ) (b : Bytes) → i < length b → Passes (within i b)
Passes-within i b h = rw (lt→ltb i (length b) h) tt

-- A text that can be read is not empty.
unmarshal_filled : (token : Bytes) (t : HostToken) → Host.unmarshal token ≡ ok t → 0 < length token
unfolding Host.unmarshal parse read_value read_struct
unmarshal_filled [] t h = absurd (err-ne-ok h)
unmarshal_filled (c ∷ token) t h = omega arith

module _ (c : Ed25519) (log : Log) (m : Merkle) (s : Signer)
    (shutdown : log.State → log.State × Result Failure (Unit {0})) where
  Passes-check_entries :
      (st : log.State) (pb : log.Builder) (cp : Checkpoint) (es : List Entry)
      → Passes (check_entries c log m s shutdown st pb cp es)
  unfolding check_entries
  Passes-check_entries st pb cp [] = tt
  Passes-check_entries st pb cp (e ∷ es) =
      Passes-bind (wrap fatal (log.inclusion_proof st pb e.index)) _
        (Passes-wrap fatal (log.inclusion_proof st pb e.index) (λ x. tt))
        λ proof _.
          Passes-bind _ _
            (Passes-wrap _ (m.verify_inclusion e.index cp.size (hash_leaf m e.token) proof cp.hash)
              (λ x. tt))
            λ u _. Passes-check_entries st pb cp es

  Passes-check_growth :
      (st : log.State) (pb : log.Builder) (old cp : Checkpoint)
      → Passes (check_growth c log m s shutdown st pb old cp)
  unfolding check_growth
  Passes-check_growth st pb old cp = elim (Bool-cases (ltb old.size cp.size)) [
    | inl grown ↦ rw grown (
        Passes-bind _ _ (Passes-wrap fatal (log.consistency_proof st pb old.size cp.size) (λ x. tt))
          λ proof _.
            Passes-wrap _ (m.verify_consistency old.size cp.size proof old.hash cp.hash) (λ x. tt))
    | inr same ↦ rw same tt
  ]

  Passes-refuse_forged :
      (token : Bytes) (t : HostToken)
      → Host.unmarshal token ≡ ok t
      → (verify_htt c s t).1 ≡ ok tt
      → Passes (refuse_forged c log m s shutdown token)
  unfolding refuse_forged
  Passes-refuse_forged token t read verified =
      let (size, signed) = (verify_htt_iff c s t).0 verified in
      rw read (
        Passes-bind (within 0 (bytes_of t.signature)) _
          (Passes-within 0 (bytes_of t.signature) (omega (arith, size)))
          (λ u _.
            Passes-refused forgery_accepted (verify_htt c s (forged c log m s shutdown t)).1 tt))

  Passes-refuse_tampered :
      (st : log.State) (pb : log.Builder) (cp : Checkpoint) (e : Entry)
      → 0 < length e.token
      → Passes (refuse_tampered c log m s shutdown st pb cp e)
  unfolding refuse_tampered
  Passes-refuse_tampered st pb cp e filled =
      Passes-bind (within (length e.token / 2) e.token) _
        (Passes-within (length e.token / 2) e.token (omega arith))
        (λ u _.
          Passes-refused tampering_accepted
            (m.verify_inclusion e.index cp.size (hash_leaf m (tampered c log m s shutdown e.token))
              (proof_or_nil (log.inclusion_proof st pb e.index)) cp.hash)
            tt)

  -- Behind `shutdown`, with a host token that can be read and is verified.
  Passes-check_all :
      (st : log.State) (host built deployed : Entry) (t : HostToken)
      → Host.unmarshal host.token ≡ ok t
      → (verify_htt c s t).1 ≡ ok tt
      → Passes (check_all c log m s shutdown st host built deployed)
  unfolding check_all
  Passes-check_all st host built deployed t read verified =
      Passes-bind _ _ (Passes-wrap fatal (log.unmarshal_checkpoint deployed.raw) (λ x. tt)) λ cp _.
        Passes-bind _ _ (Passes-wrap fatal (log.new_proof_builder st cp.size) (λ x. tt)) λ pb _.
          Passes-bind _ _ (Passes-check_entries st pb cp (host ∷ built ∷ deployed ∷ [])) λ u _.
            Passes-bind _ _ (Passes-wrap fatal (log.unmarshal_checkpoint host.raw) (λ x. tt))
              λ old _. Passes-bind _ _ (Passes-check_growth st pb old cp) λ v _.
                Passes-bind _ _
                  (Passes-refuse_tampered st pb cp host (unmarshal_filled host.token t read))
                  λ w _. Passes-refuse_forged host.token t read verified

  -- From `shutdown` on, with a host token that was prepared.
  pub Passes-finish :
      (st : log.State) (host built deployed : Entry) {t : HostToken}
      → IsPrepared c log m s shutdown host_kind t host.token
      → Passes
          (continue
            ((shutdown st).0, wrap fatal (shutdown st).1)
            (λ _ st'. (st', check_all c log m s shutdown st' host built deployed))).1
  Passes-finish st host built deployed prepared =
      Passes-continue ((shutdown st).0, wrap fatal (shutdown st).1) _
        (Passes-wrap fatal (shutdown st).1 (λ x. tt))
        λ u _.
          Passes-check_all (shutdown st).0 host built deployed prepared.parsed prepared.read
            (unfold verify_htt in prepared.verified)
