-- ===== src/Tests/Served.antt =====
-- The run of cmd/sprint3 against the server, over a log whose root hashes have 32 bytes.
use tessera_transparency.Base.{
  ℕ, ◌≡◌, refl, ap, [], ◌∷◌, List, Option, some, none, Bytes, ok, err, codes, replicate, length,
  ◌==◌, if◌then◌else◌, arith, Result,
}
use mathlib.Core.Option
use tessera_transparency.Base.Programs.{Program}
use tessera_transparency.Text.Hex
use tessera_transparency.Text.Base64
use tessera_transparency.Text.Decimal
use tessera_transparency.Text.Integer
use tessera_transparency.Json.Value.{Members, print}
use tessera_transparency.Json.Parse.{parse_first, read_value}
use tessera_transparency.Json.Quote.{escape, raw_string, unquote}
use tessera_transparency.Json.Number.{scan_number}
use tessera_transparency.Schema.Fields.{read_struct, read_members, read_string, names}
use tessera_transparency.Schema.Host
use tessera_transparency.Schema.Binary
use tessera_transparency.Signer.Keys.{Signer}
use tessera_transparency.Signer.Tokens.{sign_token}
use tessera_transparency.Signer.Tokens.Laws.{seeded}
use tessera_transparency.Log.{Log, Merkle, Failure, Checkpoint}
use tessera_transparency.Api.Response.{
  Request, Body, json, plain, raw, http_error, invalid_data, not_found,
}
use tessera_transparency.Api.Handlers.{
  read_cp, handle_submit, handle_sth, handle_prove, handle_consistency, parse_uint, hex_slice,
}
use tessera_transparency.Api.Handlers.Submit.{submit_body}
use tessera_transparency.Api.Server.{serve, route, FileServer}
use tessera_transparency.Bench.Client.Laws.{json_text}
use tessera_transparency.Sprints.ThreeTokens.{short_hex}
use tessera_transparency.Sprints.Endpoints.{
  post_request, far_request, empty_request, Answer, Numbers, Stop, get, long_text, as_uint,
  as_hashes, do_submit, do_get,
}
use tessera_transparency.Sprints.Endpoints.Served.{IsExact, IsDelivered, AreFields, do_submit-serve}
use tessera_transparency.Sprints.Endpoints.Refused.{negative_tests-serve}
use tessera_transparency.Sprints.Endpoints.Steps.{Times, negative_tests, main}
use tessera_transparency.Sprints.Endpoints.Laws.{IsVerified, main-IsVerified}
use tessera_transparency.Tests.Instances.{
  toy_log, toy_merkle, toy_ed25519, toy_ed25519-IsLawful, toy_seed, toy_vkey,
}

abbrev wide_checkpoint : ℕ → Checkpoint
wide_checkpoint n = record { size = n; hash = n ∷ replicate 31 0 }

abbrev wide_log : Log
wide_log = record toy_log {
  unmarshal_checkpoint =
      λ raw. elim raw [ n ∷ [] ↦ ok (wide_checkpoint n) | _ ↦ err (codes "malformed") ];
}

abbrev wide_merkle : Merkle
wide_merkle = record toy_merkle {
  verify_inclusion =
      λ idx size leaf proof root. if length root == 32 then ok tt else err (codes "wrong root");
  verify_consistency =
      λ from to proof old new. if length new == 32 then ok tt else err (codes "wrong root");
}

abbrev whole_of : Result Decimal.NumError ℕ → Option ℕ
whole_of (ok n) = some n
whole_of (err e) = none

abbrev whole : Numbers
whole = record { Float = ℕ; parse_float = λ s. whole_of (Decimal.parse s); to_uint = λ n. n }

whole-IsExact : IsExact whole
whole-IsExact = record {
  exact = λ n h. (n, ap whole_of (Decimal.parse-format n (omega arith)), refl);
}

abbrev body_text : Body → Bytes
body_text (json v) = json_text v
body_text (plain msg) = []
body_text (raw s) = s

abbrev no_files : FileServer wide_log
no_files h r st = http_error invalid_data not_found

abbrev http : Request → Program wide_log.State Failure Answer
http r st =
    let (st', response) = serve wide_log wide_merkle no_files r st in
    (st', ok (record { status = response.status; body = body_text response.body }))

delivers : (r : Request) (st : wide_log.State) → IsDelivered wide_log wide_merkle no_files http r st
delivers r st =
    let response = (serve wide_log wide_merkle no_files r st).1 in
    (
      record { status = response.status; body = body_text response.body },
      refl,
      (refl, λ v e. ap body_text e),
    )

abbrev one_entry : List Bytes
one_entry = codes "one" ∷ []

abbrev token : Bytes
token = 251 ∷ 0 ∷ 255 ∷ []

do_submit-serve_example :
    (ms : Members) × (do_submit wide_log whole http token one_entry
      ≡ (codes "one" ∷ token ∷ [], ok ms))
    × AreFields whole whole-IsExact ms 1 (wide_merkle.sha256 (0 ∷ token)) (wide_checkpoint 2)
do_submit-serve_example =
    do_submit-serve wide_log wide_merkle no_files whole http whole-IsExact one_entry
      (codes "one" ∷ token ∷ []) token (2 ∷ []) 1 (wide_checkpoint 2)
      (delivers (post_request (codes "/token/submit") (submit_body token)) one_entry) (omega arith)
      (ground arith) refl refl (omega arith) (omega arith) (omega arith) (omega arith)

negative_tests-serve_example : negative_tests wide_log http one_entry ≡ (one_entry, ok tt)
unfolding read_cp
negative_tests-serve_example =
    negative_tests-serve wide_log wide_merkle no_files http one_entry (wide_checkpoint 1)
      (delivers far_request one_entry) (delivers empty_request one_entry) refl (omega arith)

abbrev signer : Signer
signer = seeded toy_ed25519 toy_ed25519-IsLawful toy_vkey toy_seed refl

abbrev times : Times
times = record { boot = 1700000000; built = 1700000001 }

abbrev close : wide_log.State → wide_log.State × Result Failure (Unit {0})
close st = (st, ok tt)

abbrev accepting : ℕ → Bytes → Program wide_log.State Failure (Unit {0})
accepting index leaf st = (st, ok tt)

abbrev run : wide_log.State × Result Stop (Unit {0})
run = main toy_ed25519 wide_log wide_merkle signer whole http close accepting times []

completed : run.1 ≡ ok tt
unfolding main do_submit do_get sign_token short_hex Host.marshal_for_signing Host.marshal
    Binary.marshal Binary.marshal_for_signing read_struct read_members read_string names parse_first
    read_value print escape raw_string unquote scan_number Hex.encode Hex.decode_front Base64.encode
    Base64.decode Decimal.format Decimal.emit Decimal.parse Integer.format Option.bind serve route
    handle_submit handle_sth handle_prove handle_consistency parse_uint hex_slice submit_body
    json_text get long_text as_uint as_hashes
completed = refl

main-IsVerified_example :
    IsVerified toy_ed25519 wide_log wide_merkle signer whole http close accepting times [] run.0
main-IsVerified_example =
    main-IsVerified toy_ed25519 wide_log wide_merkle signer whole http close accepting times []
      run.0 (λ i. (run.0, completed i))
