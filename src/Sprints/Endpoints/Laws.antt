-- ===== src/Sprints/Endpoints/Laws.antt =====
-- What `main` of cmd/sprint3 has checked when it ends.
use mathlib.Core.Path.{subst}
use tessera_transparency.Base.{
  ℕ, ◌≡◌, refl, ap, [], ◌∷◌, All, Bytes, Result, ok, err, ok-injective, wrap, err-ne-ok, bind_ok,
  ◌>>=◌,
}
use tessera_transparency.Base.Programs.{Program, continue_ok, lift_ok, call_ok}
use tessera_transparency.Text.Hex
use tessera_transparency.Json.Value.{Members}
use tessera_transparency.Signer.Keys.{Ed25519, Signer}
use tessera_transparency.Signer.Tokens.{host_kind, binary_kind}
use tessera_transparency.Log.{Log, Merkle, Failure}
use tessera_transparency.Api.Response.{Request, not_found, bad_request}
use tessera_transparency.Sprints.Endpoints.{
  Stop, fatal, panicked, verifier_failed, Answer, Numbers, far_request, empty_request, do_submit,
}
use tessera_transparency.Signer.Tokens.{sign_token}
use tessera_transparency.Log.{hash_leaf}
use tessera_transparency.Api.Handlers.Submit.{submit_body}
use tessera_transparency.Sprints.Endpoints.{unsigned, post_request, get_request}
use tessera_transparency.Base.{codes, wrap_ok}
use tessera_transparency.Sprints.Endpoints.Reading.{
  IsAnswered, IsNumber, IsHex, IsHead, host_entry_sound, build_entry_sound, old_head_sound,
  do_submit_sound, tree_head_sound,
}
use tessera_transparency.Sprints.Endpoints.Checks.{
  Included, Extended, Answered, prove_entries_sound, check_growth_sound, negative_tests_sound,
}
use tessera_transparency.Sprints.Endpoints.Steps.{
  Times, Entry, htt, btt_build, at_end, sign, host_entry, build_entry, submit_host, submit_build,
  tree_head, prove_entries, check_growth, old_head, negative_tests, run_verifier, check_all, main,
}

at_end_sound :
    {S : Type 0} (shutdown : S → S × Result Failure (Unit {0})) (r : S × Result Stop (Unit {0}))
    (st : S)
    → at_end shutdown r ≡ (st, ok tt)
    → (r ≡ (r.0, ok tt)) × (shutdown r.0 ≡ (st, ok tt))
at_end_sound shutdown (s, ok tt) st h = (refl, call_ok fatal (shutdown s) h)
at_end_sound shutdown (s, err panicked) st h =
    let (u, closed, h1) =
      bind_ok (wrap fatal (shutdown s).1) (λ _. err panicked) (ap (λ p. p.1) h) in
    absurd (err-ne-ok h1)
at_end_sound shutdown (s, err e) st h = absurd (err-ne-ok (ap (λ p. p.1) h))

-- The request that submits a token.
abbrev pub submission : Bytes → Request
submission token = post_request (codes "/token/submit") (submit_body token)

module _ (c : Ed25519) (log : Log) (m : Merkle) (s : Signer) (nm : Numbers)
    (http : Request → Program log.State Failure Answer)
    (shutdown : log.State → log.State × Result Failure (Unit {0}))
    (verifier : ℕ → Bytes → Program log.State Failure (Unit {0})) where
  -- What a run to the end has seen.
  pub record IsVerified (now : Times) (st0 closed : log.State) : Type 0 where
    pub host_token : Bytes
    pub build_token : Bytes
    pub host : Entry
    pub built : Entry
    pub host_map : Members
    pub build_map : Members
    pub old_head_read : ℕ × Bytes
    pub head : ℕ × Bytes
    pub st1 : log.State
    pub st2 : log.State
    pub st3 : log.State
    pub st4 : log.State
    pub st5 : log.State
    pub st6 : log.State
    pub host_signed : (sign_token c host_kind s (htt m now.boot)).1 ≡ ok host_token
    pub host_sent : IsAnswered log nm http (submission host_token) st0 st1 host_map
    pub host_index : IsNumber nm host_map (codes "index") host.index
    pub host_hash : IsHex host_map (codes "leaf_hash") host.leaf_hash
    pub build_signed : (sign_token c binary_kind s (btt_build m now.built)).1 ≡ ok build_token
    pub build_sent : IsAnswered log nm http (submission build_token) st1 st2 build_map
    pub build_index : IsNumber nm build_map (codes "index") built.index
    pub build_hash : built.leaf_hash ≡ hash_leaf m build_token
    pub head_map : Members
    pub head_state : log.State
    pub head_got :
        IsAnswered log nm http (get_request (codes "/log/sth") []) st2 head_state head_map
    pub head_read : IsHead nm head_map (codes "size") head
    pub included : All (Included log m nm http head.0 head.1) (host ∷ built ∷ [])
    pub old_read : IsHead nm host_map (codes "tree_size") old_head_read
    pub extended : Extended log m nm http old_head_read.0 old_head_read.1 head.0 head.1
    pub far_refused : Answered log m nm http far_request not_found st3 st4
    pub empty_refused : Answered log m nm http empty_request bad_request st4 st5
    pub verified : verifier host.index (Hex.encode host.leaf_hash) st5 ≡ (st6, ok tt)
    pub shutdown_ok : shutdown st6 ≡ (closed, ok tt)

  submit_host_sound :
      (now : ℕ) (st st' : log.State) (e : Entry) (ms : Members)
      → submit_host c log m s nm http shutdown verifier now st ≡ (st', ok (e, ms))
      → (token : Bytes) × (sign c s host_kind (htt m now) ≡ ok token)
        × (do_submit log nm http token st ≡ (st', ok ms))
        × (host_entry nm ms ≡ ok e)
  unfolding submit_host
  submit_host_sound now st st' e ms h =
      let signed = sign c s host_kind (htt m now) in
      let (token, done, h1) = continue_ok (st, signed) _ h in
      let one = do_submit log nm http token st in
      let (ms', sent, h2) = continue_ok one _ h1 in
      let (both, same) = lift_ok (host_entry nm ms' >>= λ x. ok (x, ms')) h2 in
      let (x, read, h3) = bind_ok (host_entry nm ms') _ both in
      let p : (x, ms') ≡ (e, ms) = ok-injective h3 in
      (
        token,
        ap (λ p. p.1) done,
        subst (λ y. one ≡ (st', ok y)) (ap (λ p. p.1) p) (subst (λ y. one ≡ (y, ok ms')) same sent),
        subst (λ (y : Entry × Members). host_entry nm y.1 ≡ ok y.0) p read,
      )

  submit_build_sound :
      (now : ℕ) (st st' : log.State) (e : Entry)
      → submit_build c log m s nm http shutdown verifier now st ≡ (st', ok e)
      → (token : Bytes) × (ms : Members) × (sign c s binary_kind (btt_build m now) ≡ ok token)
        × (do_submit log nm http token st ≡ (st', ok ms))
        × (build_entry nm m token ms ≡ ok e)
  unfolding submit_build
  submit_build_sound now st st' e h =
      let signed = sign c s binary_kind (btt_build m now) in
      let (token, done, h1) = continue_ok (st, signed) _ h in
      let one = do_submit log nm http token st in
      let (ms, sent, h2) = continue_ok one _ h1 in
      let (read, same) = lift_ok (build_entry nm m token ms) h2 in
      (token, ms, ap (λ p. p.1) done, subst (λ y. one ≡ (y, ok ms)) same sent, read)

  check_all_sound :
      (now : Times) (st0 st closed : log.State)
      → check_all c log m s nm http shutdown verifier now st0 ≡ (st, ok tt)
      → shutdown st ≡ (closed, ok tt)
      → IsVerified now st0 closed
  unfolding check_all run_verifier sign
  check_all_sound now st0 st closed h shut =
      let one = submit_host c log m s nm http shutdown verifier now.boot st0 in
      let ((host, ms), first, h1) = continue_ok one _ h in
      let two = submit_build c log m s nm http shutdown verifier now.built one.0 in
      let (built, second, h2) = continue_ok two _ h1 in
      let three = tree_head log m nm http two.0 in
      let (head, headed, h3) = continue_ok three _ h2 in
      let four = prove_entries log m nm http head.0 head.1 (host ∷ built ∷ []) three.0 in
      let (u, proved, h4) = continue_ok four _ h3 in
      let (old, old_read, h5) = continue_ok (four.0, old_head nm ms) _ h4 in
      let six = check_growth log m nm http old.0 old.1 head.0 head.1 four.0 in
      let (v, grown, h6) = continue_ok six _ h5 in
      let seven = negative_tests log http six.0 in
      let (w, refused, h7) = continue_ok seven _ h6 in
      let (host_token, host_signed, host_sent, host_read) =
        submit_host_sound now.boot st0 one.0 host ms first in
      let (build_token, build_map, build_signed, build_sent, build_read) =
        submit_build_sound now.built one.0 two.0 built second in
      let (st4, far_refused, empty_refused) =
        negative_tests_sound log m nm http six.0 seven.0 refused in
      let (host_index, host_hash) = host_entry_sound nm ms host host_read in
      let (build_index, build_hash) =
        build_entry_sound nm m build_token build_map built build_read in
      let (head_map, head_got, head_read) =
        tree_head_sound log nm http m two.0 three.0 head headed in
      record {
        host_token = host_token;
        build_token = build_token;
        host = host;
        built = built;
        host_map = ms;
        build_map = build_map;
        old_head_read = old;
        head = head;
        st1 = one.0;
        st2 = two.0;
        st3 = six.0;
        st4 = st4;
        st5 = seven.0;
        st6 = st;
        host_signed = wrap_ok unsigned (sign_token c host_kind s (htt m now.boot)).1 host_signed;
        host_sent = do_submit_sound log nm http host_token st0 one.0 ms host_sent;
        host_index = host_index;
        host_hash = host_hash;
        build_signed =
            wrap_ok unsigned (sign_token c binary_kind s (btt_build m now.built)).1 build_signed;
        build_sent = do_submit_sound log nm http build_token one.0 two.0 build_map build_sent;
        build_index = build_index;
        build_hash = build_hash;
        head_map = head_map;
        head_state = three.0;
        head_got = head_got;
        head_read = head_read;
        included =
            prove_entries_sound log m nm http head.0 head.1 (host ∷ built ∷ []) three.0 four.0
              proved;
        old_read = old_head_sound nm ms old (ap (λ p. p.1) old_read);
        extended = check_growth_sound log m nm http old.0 old.1 head.0 head.1 four.0 six.0 grown;
        far_refused = far_refused;
        empty_refused = empty_refused;
        verified =
            call_ok verifier_failed (verifier host.index (Hex.encode host.leaf_hash) seven.0) h7;
        shutdown_ok = shut;
      }

  -- If the program runs to its end, the host token and the build token were signed and submitted in
  -- this order; against one size and root the inclusion of each was verified, the first at the index
  -- and with the leaf hash of the answer to its submission, the second with the hash of the bytes
  -- that were submitted; the tree of the first answer, where it was smaller, was verified to be
  -- extended; the index 99999 was answered with 404 and the empty token with 400; the verifier
  -- succeeded on the first token, and the log was closed. The size and the root are those of the
  -- answer to GET /log/sth.
  pub main-IsVerified :
      (now : Times) (st0 closed : log.State)
      → main c log m s nm http shutdown verifier now st0 ≡ (closed, ok tt)
      → IsVerified now st0 closed
  unfolding main
  main-IsVerified now st0 closed h =
      let r = check_all c log m s nm http shutdown verifier now st0 in
      let (ended, shut) = at_end_sound shutdown r closed h in
      check_all_sound now st0 r.0 closed ended shut
