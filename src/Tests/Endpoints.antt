-- ===== src/Tests/Endpoints.antt =====
-- Requests against a log of two entries.
use tessera_transparency.Base.{
  ◌≤◌, ◌≡◌, refl, ap, sym, ◌∙◌, length, ◌≢◌, ◌↔◌, [], ◌∷◌, ◌++◌, List, arith, Bytes, ok, codes,
  bytes_eq, if◌then◌else◌,
}
use tessera_transparency.Text.Decimal
use tessera_transparency.Text.Base64
use tessera_transparency.Json.Parse.{parse_first}
use tessera_transparency.Schema.Fields.{read_struct}
use tessera_transparency.Api.Response.{
  Request, bad_request, not_found, ok_status, http_error, invalid_data, write_json,
}
use tessera_transparency.Api.Handlers.{
  handle_submit, handle_prove, handle_consistency, parse_uint, read_cp, submit_response,
}
use tessera_transparency.Api.Handlers.Submit.{
  submit_body, handle_submit-submit_body, handle_submit-bad_request,
}
use tessera_transparency.Api.Handlers.Accepted.{IsAccepted, handle_submit-IsAccepted}
use tessera_transparency.Api.Handlers.Reads.{handle_prove-not_found}
use tessera_transparency.Api.Handlers.Consistency.{IsServed, handle_consistency-IsServed}
use tessera_transparency.Api.Server.{serve, route, FileServer}
use tessera_transparency.Api.Server.Laws.{serve_changed}
use tessera_transparency.Tests.Instances.{toy_log, toy_merkle, toy_checkpoint}

abbrev entries : List Bytes
entries = codes "one" ∷ codes "two" ∷ []

-- A token whose base64 text has a plus.
abbrev token : Bytes
token = 251 ∷ 0 ∷ 255 ∷ 62 ∷ []

abbrev post : Bytes → Request
post body = record {
  method = codes "POST";
  path = codes "/token/submit";
  query = λ name. [];
  body = body;
}

abbrev get : Bytes → (Bytes → Bytes) → Request
get path query = record { method = codes "GET"; path = path; query = query; body = [] }

abbrev prove_two : Request
prove_two = get (codes "/token/prove") (λ name. codes "2")

abbrev range_query : Bytes → Bytes
range_query name = if bytes_eq name (codes "from") then codes "1" else codes "2"

abbrev one_to_two : Request
one_to_two = get (codes "/log/consistency") range_query

abbrev no_files : FileServer toy_log
no_files h r st = http_error invalid_data not_found

posted : handle_submit toy_log toy_merkle (post (submit_body token)) entries ≡ (
  entries ++ token ∷ [],
  write_json (submit_response 2 (toy_merkle.sha256 (0 ∷ token)) (toy_checkpoint 3)),
)
posted =
    handle_submit-submit_body toy_log toy_merkle (post (submit_body token)) entries
      (entries ++ token ∷ []) token (3 ∷ []) 2 (toy_checkpoint 3) refl (omega arith) (ground arith)
      refl refl

handle_submit-submit_body_example :
    handle_submit toy_log toy_merkle (post (submit_body token)) entries ≡ (
      entries ++ token ∷ [],
      write_json (submit_response 2 (toy_merkle.sha256 (0 ∷ token)) (toy_checkpoint 3)),
    )
handle_submit-submit_body_example =
    handle_submit-submit_body toy_log toy_merkle (post (submit_body token)) entries
      (entries ++ token ∷ []) token (3 ∷ []) 2 (toy_checkpoint 3) refl (omega arith) (ground arith)
      refl refl

posted_ok :
    (handle_submit toy_log toy_merkle (post (submit_body token)) entries).1.status ≡ ok_status
posted_ok = ap (λ p. p.1.status) posted

handle_submit-IsAccepted_example : IsAccepted toy_log toy_merkle (post (submit_body token)) entries
handle_submit-IsAccepted_example =
    handle_submit-IsAccepted toy_log toy_merkle (post (submit_body token)) entries posted_ok

refused : (handle_submit toy_log toy_merkle (post (codes "{}")) entries).1.status ≡ bad_request
unfolding handle_submit read_struct parse_first Base64.decode
refused = refl

handle_submit-bad_request_example :
    (handle_submit toy_log toy_merkle (post (codes "{}")) entries).0 ≡ entries
handle_submit-bad_request_example =
    handle_submit-bad_request toy_log toy_merkle (post (codes "{}")) entries refused

two_parsed : parse_uint prove_two (codes "index") ≡ ok 2
unfolding parse_uint Decimal.parse
two_parsed = refl

handle_prove-not_found_example :
    ((handle_prove toy_log toy_merkle prove_two entries).status ≡ not_found) ↔ (2 ≤ 2)
unfolding read_cp
handle_prove-not_found_example =
    handle_prove-not_found toy_log toy_merkle prove_two entries 2 (toy_checkpoint 2) two_parsed refl

one_served : (handle_consistency toy_log toy_merkle one_to_two entries).status ≡ ok_status
unfolding handle_consistency parse_uint Decimal.parse
one_served = refl

handle_consistency-IsServed_example : IsServed toy_log toy_merkle one_to_two entries
handle_consistency-IsServed_example =
    handle_consistency-IsServed toy_log toy_merkle one_to_two entries one_served

appended : (serve toy_log toy_merkle no_files (post (submit_body token)) entries).0 ≢ entries
unfolding serve route
appended h =
    let grew : entries ++ token ∷ [] ≡ entries = sym (ap (λ p. p.0) posted) ∙ h in
    absurd (omega (arith, ap (λ es. length es) grew))

serve_changed_example :
    (codes "POST" ≡ codes "POST")
    × (codes "/token/submit" ≡ codes "/token/submit")
    × ((serve toy_log toy_merkle no_files (post (submit_body token)) entries).1.status
        ≢ bad_request)
serve_changed_example =
    serve_changed toy_log toy_merkle no_files (post (submit_body token)) entries appended
