-- ===== src/Api/Handlers.antt =====
-- The four handlers of internal/api/handler.go. `if err != nil { http.Error(…); return }` is a
-- `Result` whose error is the response.
pub mod Submit
pub mod Accepted
pub mod Reads
pub mod Consistency
use mathlib.Core.Option
use tessera_transparency.Base.{
  ℕ, ◌*◌, ◌+◌, List, [], ◌∷◌, Option, none, some, Bytes, Result, ok, err, ◌>>=◌, wrap, codes,
  length, map, bytes_eq, leb, ltb, if◌then◌else◌, Bool, ◌||◌,
}
use tessera_transparency.Text.Base64
use tessera_transparency.Text.Hex
use tessera_transparency.Text.Decimal
use tessera_transparency.Text.Decimal.{NumError}
use tessera_transparency.Json.Value.{
  Value, Items, Members, string, array, object, nil, item, end, member,
}
use tessera_transparency.Json.Parse.{parse_first}
use tessera_transparency.Schema.Fields.{JsonError, read_string, read_struct, names, uint_value}
use tessera_transparency.Log.{Log, Merkle, Checkpoint, Failure}
use tessera_transparency.Api.Response.{
  Request, Response, Message, invalid_body, invalid_data, append_failed, checkpoint_failed, failed,
  read_checkpoint, parse_checkpoint, missing, invalid, out_of_range, invalid_range, not_less,
  exceeds, bad_request, not_found, server_error, http_error, write_json,
}

-- The response, whether an error cut the handler short or not.
abbrev pub respond : Result Response Response → Response
respond (ok r) = r
respond (err r) = r

-- `rfc6962LeafHash`
unfoldable pub rfc6962_leaf_hash : Merkle → Bytes → Bytes
rfc6962_leaf_hash m token = m.sha256 (0 ∷ token)

-- `hexSlice`
unfoldable pub hex_slice : List Bytes → List Bytes
hex_slice proof = map Hex.encode proof

abbrev pub string_items : List Bytes → Items
string_items [] = nil
string_items (s ∷ ss) = item (string s) (string_items ss)

-- `parseUint`
unfoldable pub parse_uint : Request → Bytes → Result Message ℕ
parse_uint r name =
    let s = r.query name in
    if bytes_eq s [] then err (missing name) else wrap (invalid name) (Decimal.parse s)

-- `submitRequest`
set_data : Bytes → Value → Bytes → Option Bytes
set_data key v old = if names key (codes "data") then read_string v old else some old

-- The body's first value; what stands behind it is not read.
decode_submit : Bytes → Result JsonError Bytes
unfolding set_data
decode_submit body = read_struct set_data [] (parse_first body)

-- The token of the request: base64 text, and not empty.
token_of : Bytes → Result Response Bytes
token_of field = elim (Base64.decode field) [
  | some (c ∷ token) ↦ ok (c ∷ token)
  | _ ↦ err (http_error invalid_data bad_request)
]

unfoldable pub read_request : Request → Result Response Bytes
unfolding decode_submit token_of
read_request r =
    wrap (λ e. http_error (invalid_body e) bad_request) (decode_submit r.body) >>= token_of

-- `submitResponse`
abbrev pub submit_response : ℕ → Bytes → Checkpoint → Value
submit_response index leaf cp = object (
    member (codes "index") (uint_value index) (
      member (codes "leaf_hash") (string (Hex.encode leaf)) (
        member (codes "tree_size") (uint_value cp.size)
          (member (codes "root") (string (Hex.encode cp.hash)) end))))

-- `proveResponse`
abbrev pub prove_response : ℕ → Checkpoint → List Bytes → Value
prove_response index cp proof = object (
    member (codes "index") (uint_value index) (
      member (codes "tree_size") (uint_value cp.size) (
        member (codes "root") (string (Hex.encode cp.hash))
          (member (codes "proof") (array (string_items proof)) end))))

-- `sthResponse`
abbrev sth_response : Checkpoint → Bytes → Value
sth_response cp raw = object (
    member (codes "size") (uint_value cp.size) (
      member (codes "root") (string (Hex.encode cp.hash))
        (member (codes "checkpoint") (string (Base64.encode raw)) end)))

-- `consistencyResponse`
abbrev consistency_response : ℕ → ℕ → Bytes → List Bytes → Value
consistency_response from to new_root proof = object (
    member (codes "from") (uint_value from) (
      member (codes "to") (uint_value to) (
        member (codes "new_root") (string (Hex.encode new_root))
          (member (codes "proof") (array (string_items proof)) end))))

abbrev server_failure : Failure → Response
server_failure e = http_error (failed e) server_error

both : Result Message ℕ → Result Message ℕ → Result Response (ℕ × ℕ)
both (ok from) (ok to) = ok (from, to)
both (ok from) (err e) = err (http_error invalid_range bad_request)
both (err e) to = err (http_error invalid_range bad_request)

-- Both numbers of the query are parsed before either error is looked at.
range_of : Request → Result Response (ℕ × ℕ)
unfolding both
range_of r = both (parse_uint r (codes "from")) (parse_uint r (codes "to"))

module _ (log : Log) (m : Merkle) where
  -- `readCP`
  unfoldable pub read_cp : log.State → Result Message Checkpoint
  read_cp st = wrap read_checkpoint (log.read_checkpoint st) >>= λ raw.
      wrap parse_checkpoint (log.unmarshal_checkpoint raw)

  cp_or_error : log.State → Result Response Checkpoint
  unfolding read_cp
  cp_or_error st = wrap (λ e. http_error e server_error) (read_cp st)

  -- Behind `awaiter.Await`.
  unfoldable pub submitted : Bytes → log.State × Result Failure (ℕ × Bytes) → log.State × Response
  submitted token (st, err e) = (st, http_error (append_failed e) server_error)
  submitted token (st, ok (index, raw)) = elim (log.unmarshal_checkpoint raw) [
    | err e ↦ (st, http_error (checkpoint_failed e) server_error)
    | ok cp ↦ (st, write_json (submit_response index (rfc6962_leaf_hash m token) cp))
  ]

  -- `handleSubmit`
  unfoldable pub handle_submit : Request → log.State → log.State × Response
  unfolding read_request submitted rfc6962_leaf_hash
  handle_submit r st = elim (read_request r) [
    | err response ↦ (st, response)
    | ok token ↦ submitted token (log.append st token)
  ]

  -- `handleProve`
  unfoldable pub handle_prove : Request → log.State → Response
  unfolding cp_or_error
  handle_prove r st = respond (
      wrap (λ e. http_error e bad_request) (parse_uint r (codes "index")) >>= λ idx.
      cp_or_error st >>= λ cp.
      if leb cp.size idx
      then err (http_error (out_of_range idx cp.size) not_found)
      else (wrap server_failure (log.new_proof_builder st cp.size) >>= λ pb.
          wrap server_failure (log.inclusion_proof st pb idx) >>= λ proof.
          ok (write_json (prove_response idx cp (hex_slice proof)))))

  -- `handleSTH`
  unfoldable pub handle_sth : log.State → Response
  handle_sth st = respond (
      wrap server_failure (log.read_checkpoint st) >>= λ raw.
      wrap server_failure (log.unmarshal_checkpoint raw) >>= λ cp.
      ok (write_json (sth_response cp raw)))

  -- `handleConsistency`
  unfoldable pub handle_consistency : Request → log.State → Response
  unfolding range_of cp_or_error
  handle_consistency r st = respond (
      range_of r >>= λ (from, to).
      if leb to from
      then err (http_error not_less bad_request)
      else (cp_or_error st >>= λ cp.
          if ltb cp.size to
          then err (http_error (exceeds to cp.size) bad_request)
          else (wrap server_failure (log.new_proof_builder st cp.size) >>= λ pb.
              wrap server_failure (log.consistency_proof st pb from to) >>= λ proof.
              ok (write_json (consistency_response from to cp.hash (hex_slice proof))))))
