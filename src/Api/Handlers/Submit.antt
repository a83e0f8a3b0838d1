-- ===== src/Api/Handlers/Submit.antt =====
-- `handleSubmit`: what a request appends, and when it changes nothing.
use mathlib.Core.Option
use tessera_transparency.Base.{
  ℕ, ◌≡◌, refl, ◌≢◌, ap, ◌∙◌, [], ◌∷◌, some, arith, Bytes, IsBytes, Result, ok, err, codes,
  Result-cases, Option-cases, inl, inr,
}
use tessera_transparency.Text.Base64
use tessera_transparency.Json.Value.{Value, string, object, end, member, print}
use tessera_transparency.Json.Parse.Printable.{IsPrintable}
use tessera_transparency.Json.Parse.RoundTrip.{parse_first-print}
use tessera_transparency.Schema.Fields.{names, read_string, read_struct, read_members}
use tessera_transparency.Schema.Fields.Laws.{ascii-IsUtf8, blob_value-IsPrintable}
use tessera_transparency.Log.{Log, Merkle, Checkpoint, Failure}
use tessera_transparency.Api.Response.{Request, Response, bad_request, write_json}
use tessera_transparency.Api.Handlers.{
  decode_submit, token_of, read_request, submitted, submit_response, handle_submit,
  rfc6962_leaf_hash,
}

abbrev data_value : Bytes → Value
data_value token = object (member (codes "data") (string (Base64.encode token)) end)

-- The body that the client `doSubmit` of cmd/sprint3 sends for a token.
unfoldable pub submit_body : Bytes → Bytes
submit_body token = print (data_value token)

data_value-IsPrintable : (token : Bytes) → IsBytes token → IsPrintable (data_value token)
unfolding IsPrintable
data_value-IsPrintable token h =
    (ascii-IsUtf8 (codes "data") (omega arith), (blob_value-IsPrintable (some token) h, tt))

decode_submit-submit_body :
    (token : Bytes) → IsBytes token → decode_submit (submit_body token) ≡ ok (Base64.encode token)
unfolding decode_submit submit_body
decode_submit-submit_body token h =
    rw (parse_first-print (data_value token) (data_value-IsPrintable token h))
      (unfold read_struct read_members names read_string Option.bind in refl)

token_of-encode :
    (token : Bytes) → IsBytes token → token ≢ [] → token_of (Base64.encode token) ≡ ok token
unfolding token_of
token_of-encode [] h filled = absurd (filled refl)
token_of-encode (c ∷ token) h filled = rw (token_of, Base64.decode-encode (c ∷ token) h)

read_request-submit_body :
    (r : Request) (token : Bytes)
    → r.body ≡ submit_body token
    → IsBytes token
    → token ≢ []
    → read_request r ≡ ok token
unfolding read_request
read_request-submit_body r token e h filled =
    rw (e, decode_submit-submit_body token h) (token_of-encode token h filled)

pub read_request-status :
    (r : Request) (e : Response) → read_request r ≡ err e → e.status ≡ bad_request
unfolding read_request token_of
read_request-status r e failed = elim (Result-cases (decode_submit r.body)) [
  | inl (field, decoded) ↦ elim (Option-cases (Base64.decode field)) [
    | inl bad ↦ ground arith
    | inr (token, found) ↦ ground arith
  ]
  | inr (x, bad) ↦ ground arith
]

module _ (log : Log) (m : Merkle) where
  pub submitted_ok :
      (st : log.State) (token raw : Bytes) (index : ℕ) (cp : Checkpoint)
      → log.unmarshal_checkpoint raw ≡ ok cp
      → submitted log m token (st, ok (index, raw))
        ≡ (st, write_json (submit_response index (m.sha256 (0 ∷ token)) cp))
  unfolding submitted rfc6962_leaf_hash
  submitted_ok st token raw index cp parsed = rw (parsed, submitted)

  -- A request of the client `doSubmit` appends exactly the token's bytes, once, whatever bytes they
  -- are, and the answer carries the index and the checkpoint that the log gave, and the leaf hash of
  -- the token. The token is not empty.
  pub handle_submit-submit_body :
      (r : Request) (st st' : log.State) (token raw : Bytes) (index : ℕ) (cp : Checkpoint)
      → r.body ≡ submit_body token
      → IsBytes token
      → token ≢ []
      → log.append st token ≡ (st', ok (index, raw))
      → log.unmarshal_checkpoint raw ≡ ok cp
      → handle_submit log m r st
        ≡ (st', write_json (submit_response index (m.sha256 (0 ∷ token)) cp))
  unfolding handle_submit
  handle_submit-submit_body r st st' token raw index cp e h filled appended parsed =
      rw (handle_submit, read_request-submit_body r token e h filled)
        (ap (submitted log m token) appended ∙ submitted_ok st' token raw index cp parsed)

  submitted-status :
      (token : Bytes) (a : log.State × Result Failure (ℕ × Bytes))
      → (submitted log m token a).1.status ≢ bad_request
  unfolding submitted
  submitted-status token (st, err e) h = absurd (omega arith)
  submitted-status token (st, ok (index, raw)) h =
      elim (Result-cases (log.unmarshal_checkpoint raw)) [
        | inl (cp, parsed) ↦ ground arith
        | inr (e, bad) ↦ ground arith
      ]

  -- Where the handler answers 400 to a request, the log is as it was before the request.
  pub handle_submit-bad_request :
      (r : Request) (st : log.State)
      → (handle_submit log m r st).1.status ≡ bad_request
      → (handle_submit log m r st).0 ≡ st
  unfolding handle_submit
  handle_submit-bad_request r st h = elim (Result-cases (read_request r)) [
    | inl (token, found) ↦
        absurd (submitted-status token (log.append st token) (rw (found, handle_submit) at h))
    | inr (e, refused) ↦ rw (refused, handle_submit)
  ]
