-- ===== src/Sprints/Endpoints/Refused.antt =====
-- The negative tests of cmd/sprint3 against the server of internal/api.
use mathlib.Core.Option
use tessera_transparency.Base.{ℕ, ◌≤◌, ◌≡◌, refl, ap, ◌∙◌, arith, ok}
use tessera_transparency.Base.Programs.{Program}
use tessera_transparency.Text.Base64
use tessera_transparency.Text.Decimal
use tessera_transparency.Json.Parse.{parse_first}
use tessera_transparency.Json.Quote.{raw_string, unquote}
use tessera_transparency.Schema.Fields.{read_struct, read_members, read_string, names}
use tessera_transparency.Log.{Log, Merkle, Checkpoint, Failure}
use tessera_transparency.Api.Response.{
  Request, Response, not_found, bad_request, http_error, invalid_data,
}
use tessera_transparency.Api.Handlers.{
  handle_submit, handle_prove, read_cp, parse_uint, read_request,
}
use tessera_transparency.Api.Handlers.Reads.{handle_prove-not_found}
use tessera_transparency.Api.Server.{serve, route, FileServer}
use tessera_transparency.Sprints.Endpoints.{Answer, far_request, empty_request}
use tessera_transparency.Sprints.Endpoints.Steps.{expect, negative_tests}
use tessera_transparency.Sprints.Endpoints.Served.{IsDelivered}

module _ (log : Log) (m : Merkle) (files : FileServer log) where
  serve-far :
      (st : log.State) → serve log m files far_request st ≡ (st, handle_prove log m far_request st)
  unfolding serve route
  serve-far st = refl

  far-status :
      (st : log.State) (cp : Checkpoint)
      → read_cp log m st ≡ ok cp
      → cp.size ≤ 99999
      → (handle_prove log m far_request st).status ≡ not_found
  unfolding parse_uint Decimal.parse
  far-status st cp read small =
      (handle_prove-not_found log m far_request st 99999 cp refl read).1 small

  serve-empty :
      (st : log.State)
      → serve log m files empty_request st ≡ (st, http_error invalid_data bad_request)
  unfolding serve route handle_submit read_request read_struct parse_first Base64.decode
      read_members names read_string raw_string unquote Option.bind
  serve-empty st = refl

expect_lem : (status : ℕ) (a : Answer) → a.status ≡ status → expect status a ≡ ok tt
unfolding expect
expect_lem status a same = ground arith

module _ (log : Log) (m : Merkle) (files : FileServer log)
    (http : Request → Program log.State Failure Answer) where
  negative_tests_lem :
      (st : log.State) (a b : Answer)
      → http far_request st ≡ (st, ok a)
      → a.status ≡ not_found
      → http empty_request st ≡ (st, ok b)
      → b.status ≡ bad_request
      → negative_tests log http st ≡ (st, ok tt)
  unfolding negative_tests
  negative_tests_lem st a b first far second empty =
      rw (first, negative_tests, expect_lem not_found a far, second, expect_lem bad_request b empty)

  -- Where HTTP brings the two requests to the server and its responses back, the negative tests pass,
  -- and leave the log as it was, on every log whose checkpoint can be read and covers at most 99999
  -- entries: the server answers 404 to the first request and 400 to the second.
  pub negative_tests-serve :
      (st : log.State) (cp : Checkpoint)
      → IsDelivered log m files http far_request st
      → IsDelivered log m files http empty_request st
      → read_cp log m st ≡ ok cp
      → cp.size ≤ 99999
      → negative_tests log http st ≡ (st, ok tt)
  negative_tests-serve st cp far empty read small =
      let (a, first, (status, text)) = far in
      let (b, second, (status', text')) = empty in
      negative_tests_lem st a b
        (first ∙ ap (λ (p : log.State × Response). (p.0, ok a)) (serve-far log m files st))
        (status
          ∙ ap (λ (p : log.State × Response). p.1.status) (serve-far log m files st)
          ∙ far-status log m files st cp read small)
        (second ∙ ap (λ (p : log.State × Response). (p.0, ok b)) (serve-empty log m files st))
        (status' ∙ ap (λ (p : log.State × Response). p.1.status) (serve-empty log m files st))
