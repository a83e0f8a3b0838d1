-- ===== src/Api/Handlers/Accepted.antt =====
-- `handleSubmit`: what an answer of 200 says.
use tessera_transparency.Base.{
  ℕ, ◌≡◌, ◌≢◌, ap, sym, ◌∙◌, [], ◌∷◌, arith, Bytes, Result, ok, err, Result-cases, Option-cases,
  inl, inr,
}
use mathlib.Core.List.{cons-ne-nil}
use tessera_transparency.Text.Base64
use tessera_transparency.Log.{Log, Merkle, Checkpoint, Failure}
use tessera_transparency.Api.Response.{Request, Response, ok_status, write_json}
use tessera_transparency.Api.Handlers.{
  read_request, token_of, decode_submit, submitted, submit_response, handle_submit,
}
use tessera_transparency.Api.Handlers.Submit.{submitted_ok, read_request-status}

token_of-filled : (field token : Bytes) → token_of field ≡ ok token → token ≢ []
unfolding token_of
token_of-filled field [] h e = elim (Option-cases (Base64.decode field)) [
  | inl bad ↦ absurd (ground arith)
  | inr (t, found) ↦ absurd (ground arith)
]
token_of-filled field (c ∷ token) h e = cons-ne-nil c token e

read_request-filled : (r : Request) (token : Bytes) → read_request r ≡ ok token → token ≢ []
unfolding read_request
read_request-filled r token h e = elim (Result-cases (decode_submit r.body)) [
  | inl (field, decoded) ↦ token_of-filled field token (rw (decoded, read_request) at h) e
  | inr (x, bad) ↦ absurd (ground arith)
]

module _ (log : Log) (m : Merkle) where
  -- The append behind an accepted request.
  pub record IsAccepted (r : Request) (st : log.State) : Type 0 where
    pub token : Bytes
    pub index : ℕ
    pub raw : Bytes
    pub cp : Checkpoint
    pub requested : read_request r ≡ ok token
    pub filled : token ≢ []
    pub appended : log.append st token ≡ ((handle_submit log m r st).0, ok (index, raw))
    pub covering : log.unmarshal_checkpoint raw ≡ ok cp
    pub answer :
        (handle_submit log m r st).1 ≡ write_json (submit_response index (m.sha256 (0 ∷ token)) cp)

  submitted_accepted :
      (token : Bytes) (a : log.State × Result Failure (ℕ × Bytes))
      → (submitted log m token a).1.status ≡ ok_status
      → (index : ℕ) × (raw : Bytes) × (cp : Checkpoint) × (a
          ≡ ((submitted log m token a).0, ok (index, raw)))
        × (log.unmarshal_checkpoint raw ≡ ok cp)
        × ((submitted log m token a).1
            ≡ write_json (submit_response index (m.sha256 (0 ∷ token)) cp))
  unfolding submitted
  submitted_accepted token (st, err e) h = absurd (omega arith)
  submitted_accepted token (st, ok (index, raw)) h =
      elim (Result-cases (log.unmarshal_checkpoint raw)) [
        | inl (cp, parsed) ↦
            let done = submitted_ok log m st token raw index cp parsed in
            (
              index,
              raw,
              cp,
              ap (λ t. (t, ok (index, raw))) (sym (ap (λ p. p.0) done)),
              parsed,
              ap (λ p. p.1) done,
            )
        | inr (e, bad) ↦ absurd (ground arith)
      ]

  handle_submit-found :
      (r : Request) (st : log.State) (token : Bytes)
      → read_request r ≡ ok token
      → handle_submit log m r st ≡ submitted log m token (log.append st token)
  unfolding handle_submit
  handle_submit-found r st token found = rw (found, handle_submit)

  refused_status :
      (r : Request) (st : log.State) (e : Response)
      → read_request r ≡ err e
      → (handle_submit log m r st).1.status ≡ e.status
  unfolding handle_submit
  refused_status r st e refused = rw (refused, handle_submit)

  -- Where the handler answers 200, the request held a token that is not empty, the log that it
  -- leaves is the one that a single append of this token gives, and the answer holds the index that
  -- the log gave, the leaf hash of the token, and the checkpoint that covers it.
  pub handle_submit-IsAccepted :
      (r : Request) (st : log.State)
      → (handle_submit log m r st).1.status ≡ ok_status
      → IsAccepted r st
  unfolding handle_submit
  handle_submit-IsAccepted r st h = elim (Result-cases (read_request r)) [
    | inr (e, refused) ↦
        absurd (omega (arith, read_request-status r e refused, refused_status r st e refused))
    | inl (token, found) ↦
        let same = handle_submit-found r st token found in
        let (index, raw, cp, appended, covering, answer) =
          submitted_accepted token (log.append st token) (ap (λ p. p.1.status) (sym same) ∙ h) in
        record {
          token = token;
          index = index;
          raw = raw;
          cp = cp;
          requested = found;
          filled = read_request-filled r token found;
          appended = appended ∙ ap (λ p. (p.0, ok (index, raw))) (sym same);
          covering = covering;
          answer = ap (λ p. p.1) same ∙ answer;
        }
  ]
