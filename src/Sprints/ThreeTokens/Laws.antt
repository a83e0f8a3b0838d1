-- ===== src/Sprints/ThreeTokens/Laws.antt =====
-- What it means that cmd/sprint2 runs to its end.
use tessera_transparency.Base.{
  ◌<◌, ◌≡◌, ◌≢◌, ap, sym, ◌∙◌, List, [], ◌∷◌, Bytes, Result, ok, err, All, codes, err-ne-ok,
  ok-injective, bind_ok, length, ◌/◌, wrap, wrap_ok, wrap_bind_ok, lt→ltb,
}
use mathlib.Core.Path.{subst}
use tessera_transparency.Base.Programs.{continue_ok, call_ok}
use tessera_transparency.Schema.Fields.{bytes_of}
use tessera_transparency.Schema.Host
use tessera_transparency.Schema.Host.{HostToken}
use tessera_transparency.Signer.Keys.{Ed25519, Signer}
use tessera_transparency.Signer.Tokens.{
  Kind, host_kind, binary_kind, sign_token, verify_token, verify_htt,
}
use tessera_transparency.Log.{Log, Merkle, Checkpoint, Failure, hash_leaf}
use tessera_transparency.Sprints.ThreeTokens.{
  Stop, fatal, tampering_accepted, forgery_accepted, Times, Entry, entry, htt, btt_build,
  btt_deploy, prepare, submit, check_entries, check_growth, refused, proof_or_nil, tampered, within,
  refuse_tampered, forged, refuse_forged, check_all, main,
}

refused_sound {ℓ κ} :
    {E : Type ℓ} {A : Type κ} (stop : Stop) (r : Result E A)
    → refused stop r ≡ ok tt
    → (a : A) → r ≢ ok a
refused_sound stop (ok b) h a e = err-ne-ok h
refused_sound stop (err x) h a e = err-ne-ok e

module _ (c : Ed25519) (log : Log) (m : Merkle) (s : Signer)
    (shutdown : log.State → log.State × Result Failure (Unit {0})) where
  -- What was seen of a token before it was submitted.
  pub record IsPrepared (k : Kind) (t : k.Token) (token : Bytes) : Type 0 where
    pub parsed : k.Token
    pub signed : (sign_token c k s t).1 ≡ ok token
    pub read : k.unmarshal token ≡ ok parsed
    pub verified : (verify_token c k s parsed).1 ≡ ok tt

  prepare_sound :
      (k : Kind) (t : k.Token) (token : Bytes)
      → prepare c log m s shutdown k t ≡ ok token
      → IsPrepared k t token
  unfolding prepare
  prepare_sound k t token h =
      let (bytes, signed, h1) = wrap_bind_ok _ (sign_token c k s t).1 _ h in
      let (parsed, read, h2) = wrap_bind_ok _ (k.unmarshal bytes) _ h1 in
      let (u, verified, h3) = wrap_bind_ok _ (verify_token c k s parsed).1 _ h2 in
      let same : bytes ≡ token = ok-injective h3 in
      record {
        parsed = parsed;
        signed = signed ∙ ap (λ b. ok b) same;
        read = ap k.unmarshal (sym same) ∙ read;
        verified = verified;
      }

  pub submit_sound :
      (k : Kind) (name : Bytes) (t : k.Token) (st st' : log.State) (e : Entry)
      → submit c log m s shutdown k name t st ≡ (st', ok e)
      → IsPrepared k t e.token × (log.append st e.token ≡ (st', ok (e.index, e.raw)))
  unfolding submit
  submit_sound k name t st st' e h =
      let (token, prepared, h1) = continue_ok (st, prepare c log m s shutdown k t) _ h in
      let (place, appended, h2) =
        continue_ok ((log.append st token).0, wrap fatal (log.append st token).1) _ h1 in
      let same : entry name token place ≡ e = ok-injective (ap (λ p. p.1) h2) in
      let left : (log.append st token).0 ≡ st' = ap (λ p. p.0) h2 in
      let found : log.append st token ≡ (st', ok place) =
        call_ok fatal (log.append st token) (λ i. (left i, (appended i).1)) in
      subst
        (λ (x : Entry).
          IsPrepared k t x.token × (log.append st x.token ≡ (st', ok (x.index, x.raw))))
        same (prepare_sound k t token (ap (λ p. p.1) prepared), found)

  -- The proof of an entry that was accepted.
  abbrev pub Included : log.State → log.Builder → Checkpoint → Entry → Type 0
  Included st pb cp e =
      (proof : List Bytes) × (log.inclusion_proof st pb e.index ≡ ok proof)
      × (m.verify_inclusion e.index cp.size (hash_leaf m e.token) proof cp.hash ≡ ok tt)

  check_entries_sound :
      (st : log.State) (pb : log.Builder) (cp : Checkpoint) (es : List Entry)
      → check_entries c log m s shutdown st pb cp es ≡ ok tt
      → All (Included st pb cp) es
  unfolding check_entries
  check_entries_sound st pb cp [] h = tt
  check_entries_sound st pb cp (e ∷ es) h =
      let (proof, proved, h') = wrap_bind_ok _ (log.inclusion_proof st pb e.index) _ h in
      let (u, verified, h'') = wrap_bind_ok _ _ _ h' in
      ((proof, proved, verified), check_entries_sound st pb cp es h'')

  -- The consistency proof that was accepted, where the tree has grown.
  abbrev pub Extended : log.State → log.Builder → Checkpoint → Checkpoint → Type 0
  Extended st pb old cp =
      old.size < cp.size
      → (proof : List Bytes) × (log.consistency_proof st pb old.size cp.size ≡ ok proof)
        × (m.verify_consistency old.size cp.size proof old.hash cp.hash ≡ ok tt)

  check_growth_sound :
      (st : log.State) (pb : log.Builder) (old cp : Checkpoint)
      → check_growth c log m s shutdown st pb old cp ≡ ok tt
      → Extended st pb old cp
  unfolding check_growth
  check_growth_sound st pb old cp h grown =
      let (proof, proved, h1) =
        wrap_bind_ok fatal (log.consistency_proof st pb old.size cp.size) _
          (rw (lt→ltb old.size cp.size grown) at h) in
      (proof, proved, wrap_ok _ _ h1)

  -- What the checks behind `shutdown` have seen.
  pub record AreChecked (st : log.State) (host built deployed : Entry) : Type 0 where
    pub cp : Checkpoint
    pub old : Checkpoint
    pub builder : log.Builder
    pub host_token : HostToken
    pub parsed : log.unmarshal_checkpoint deployed.raw ≡ ok cp
    pub opened : log.new_proof_builder st cp.size ≡ ok builder
    pub included : All (Included st builder cp) (host ∷ built ∷ deployed ∷ [])
    pub parsed_old : log.unmarshal_checkpoint host.raw ≡ ok old
    pub extended : Extended st builder old cp
    pub told_apart : hash_leaf m (tampered c log m s shutdown host.token) ≢ hash_leaf m host.token
    pub decoded : Host.unmarshal host.token ≡ ok host_token
    pub unforged : (verify_htt c s (forged c log m s shutdown host_token)).1 ≢ ok tt

  refuse_tampered_sound :
      (st : log.State) (pb : log.Builder) (cp : Checkpoint) (e : Entry)
      → Included st pb cp e
      → refuse_tampered c log m s shutdown st pb cp e ≡ ok tt
      → hash_leaf m (tampered c log m s shutdown e.token) ≢ hash_leaf m e.token
  unfolding refuse_tampered
  refuse_tampered_sound st pb cp e (proof, proved, verified) h same =
      let (u, inside, h') = bind_ok (within (length e.token / 2) e.token) _ h in
      refused_sound tampering_accepted _ h' tt (
        ap
          (λ r.
            m.verify_inclusion e.index cp.size (hash_leaf m (tampered c log m s shutdown e.token))
              (proof_or_nil r) cp.hash)
          proved
        ∙ ap (λ leaf. m.verify_inclusion e.index cp.size leaf proof cp.hash) same
        ∙ verified)

  check_all_sound :
      (st : log.State) (host built deployed : Entry)
      → check_all c log m s shutdown st host built deployed ≡ ok tt
      → AreChecked st host built deployed
  unfolding check_all refuse_forged
  check_all_sound st host built deployed h =
      let (cp, parsed, h1) = wrap_bind_ok fatal (log.unmarshal_checkpoint deployed.raw) _ h in
      let (pb, opened, h2) = wrap_bind_ok fatal (log.new_proof_builder st cp.size) _ h1 in
      let (u, present, h3) =
        bind_ok (check_entries c log m s shutdown st pb cp (host ∷ built ∷ deployed ∷ [])) _ h2 in
      let (old, parsed_old, h4) = wrap_bind_ok fatal (log.unmarshal_checkpoint host.raw) _ h3 in
      let (v, grown, h5) = bind_ok (check_growth c log m s shutdown st pb old cp) _ h4 in
      let (w, untampered, h6) = bind_ok (refuse_tampered c log m s shutdown st pb cp host) _ h5 in
      let (t, decoded, h7) = wrap_bind_ok _ (Host.unmarshal host.token) _ h6 in
      let (x, inside, h8) = bind_ok (within 0 (bytes_of t.signature)) _ h7 in
      let included = check_entries_sound st pb cp (host ∷ built ∷ deployed ∷ []) present in
      record {
        cp = cp;
        old = old;
        builder = pb;
        host_token = t;
        parsed = parsed;
        opened = opened;
        included = included;
        parsed_old = parsed_old;
        extended = check_growth_sound st pb old cp grown;
        told_apart = refuse_tampered_sound st pb cp host included.0 untampered;
        decoded = decoded;
        unforged = refused_sound forgery_accepted _ h8 tt;
      }

  -- What a run to the end has seen.
  pub record IsChecked (now : Times) (st0 closed : log.State) : Type 0 where
    pub st1 : log.State
    pub st2 : log.State
    pub st3 : log.State
    pub host : Entry
    pub built : Entry
    pub deployed : Entry
    pub host_prepared : IsPrepared host_kind (htt m now.boot) host.token
    pub host_appended : log.append st0 host.token ≡ (st1, ok (host.index, host.raw))
    pub built_prepared : IsPrepared binary_kind (btt_build m now.built) built.token
    pub built_appended : log.append st1 built.token ≡ (st2, ok (built.index, built.raw))
    pub deployed_prepared : IsPrepared binary_kind (btt_deploy m now.deployed) deployed.token
    pub deployed_appended : log.append st2 deployed.token ≡ (st3, ok (deployed.index, deployed.raw))
    pub shutdown_ok : shutdown st3 ≡ (closed, ok tt)
    pub checked : AreChecked closed host built deployed

  -- If the program runs to its end, the host token, the build token and the deployment token were
  -- signed, read back from the bytes that were submitted and verified, and appended in this order;
  -- the log was closed; it proved each of the three to be in the tree of the last checkpoint and,
  -- where the tree had grown, that this tree extends the one of the first token; and the tampered
  -- host token has another leaf hash, and the host token with a forged signature is not verified.
  pub main-IsChecked :
      (now : Times) (st st' : log.State)
      → main c log m s shutdown now st ≡ (st', ok tt)
      → IsChecked now st st'
  unfolding main
  main-IsChecked now st st' h =
      let one = submit c log m s shutdown host_kind (codes "HTT") (htt m now.boot) st in
      let (host, first, h1) = continue_ok one _ h in
      let two =
        submit c log m s shutdown binary_kind (codes "BTT BUILD") (btt_build m now.built) one.0 in
      let (built, second, h2) = continue_ok two _ h1 in
      let three =
        submit c log m s shutdown binary_kind (codes "BTT DEPLOY") (btt_deploy m now.deployed)
          two.0 in
      let (deployed, third, h3) = continue_ok three _ h2 in
      let four = shutdown three.0 in
      let (u, closed, h4) = continue_ok (four.0, wrap fatal four.1) _ h3 in
      let (host_prepared, host_appended) = submit_sound host_kind _ _ st one.0 host first in
      let (built_prepared, built_appended) =
        submit_sound binary_kind _ _ one.0 two.0 built second in
      let (deployed_prepared, deployed_appended) =
        submit_sound binary_kind _ _ two.0 three.0 deployed third in
      let left : four.0 ≡ st' = ap (λ p. p.0) h4 in
      record {
        st1 = one.0;
        st2 = two.0;
        st3 = three.0;
        host = host;
        built = built;
        deployed = deployed;
        host_prepared = host_prepared;
        host_appended = host_appended;
        built_prepared = built_prepared;
        built_appended = built_appended;
        deployed_prepared = deployed_prepared;
        deployed_appended = deployed_appended;
        shutdown_ok = call_ok fatal four (λ i. (left i, (closed i).1));
        checked =
            subst (λ x. AreChecked x host built deployed) left
              (check_all_sound four.0 host built deployed (ap (λ p. p.1) h4));
      }
