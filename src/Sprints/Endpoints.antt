-- ===== src/Sprints/Endpoints.antt =====
-- The client in cmd/sprint3: `doSubmit` and `doGet`, and how `main` reads the maps that they return.
-- HTTP is a parameter: a request changes the log behind the server and gives an answer or an error.
pub mod Steps
pub mod Served
pub mod Reading
pub mod Checks
pub mod Laws
pub mod Refused
use tessera_transparency.Base.{
  ℕ, List, [], ◌∷◌, ◌++◌, Bool, true, false, ◌&&◌, ◌==◌, if◌then◌else◌, Option, none, some, Bytes,
  Result, ok, err, ◌>>=◌, wrap, codes, length, ltb, take, bytes_eq,
}
use tessera_transparency.Base.Programs
use tessera_transparency.Base.Programs.{Program, lift, call}
use tessera_transparency.Text.Hex
use tessera_transparency.Text.Decimal
use tessera_transparency.Json.Value.{
  Value, Items, Members, null, boolean, number, string, array, object, nil, item, end, member,
}
use tessera_transparency.Json.Parse.{parse_first}
use tessera_transparency.Schema.Fields.{JsonError, syntax, mismatch}
use tessera_transparency.Schema.Host.{HostToken}
use tessera_transparency.Schema.Binary.{BinaryToken, build}
use tessera_transparency.Signer.Keys.{Ed25519, Signer}
use tessera_transparency.Signer.Tokens.{Kind, host_kind, binary_kind, sign_token}
use tessera_transparency.Log.{Log, Merkle, Failure, hash_leaf}
use tessera_transparency.Api.Response.{Request}
use tessera_transparency.Api.Handlers.Submit.{submit_body}
use tessera_transparency.Sprints.ThreeTokens.{short_hex}

-- `panicked` is a failed type assertion, or a text that is too short for its slice.
pub data Stop : Type 0 where
  fatal : Failure → Stop
  unsigned : JsonError → Stop
  unexpected : ℕ → Stop
  bad_json : JsonError → Stop
  inclusion_failed : Bytes → Failure → Stop
  consistency_failed : Failure → Stop
  verifier_failed : Failure → Stop
  expected : ℕ → ℕ → Stop
  panicked : Stop

-- An HTTP answer, as its reader sees it.
pub record Answer : Type 0 where
  pub status : ℕ
  pub body : Bytes

-- `float64`: a number of a JSON text, which may be out of range, and its conversion to `uint64`.
pub record Numbers : Type 1 where
  pub Float : Type 0
  pub parse_float : Bytes → Option Float
  pub to_uint : Float → ℕ

abbrev is_some : {A : Type 0} → Option A → Bool
is_some (some a) = true
is_some none = false

-- `result[name]`: of two members with one name the later is kept.
unfoldable pub get : Bytes → Members → Option Value
get name end = none
get name (member k v ms) =
    let later = get name ms in
    elim later [ some w ↦ some w | none ↦ if bytes_eq name k then some v else none ]

-- `x.(string)`
unfoldable pub as_text : Option Value → Result Stop Bytes
as_text (some (string s)) = ok s
as_text _ = err panicked

-- The loop over `hexProofs`; the errors of the decoder are dropped.
unfoldable pub hashes_of : Items → Result Stop (List Bytes)
unfolding as_text
hashes_of nil = ok []
hashes_of (item v vs) =
    as_text (some v) >>= λ h. hashes_of vs >>= λ hs. ok (Hex.decode_front h ∷ hs)

-- `x.([]interface{})`, with its elements.
unfoldable pub as_hashes : Option Value → Result Stop (List Bytes)
unfolding hashes_of
as_hashes (some (array vs)) = hashes_of vs
as_hashes _ = err panicked

-- A text that must have sixteen characters, for they are printed.
unfoldable pub long_text : Option Value → Result Stop Bytes
unfolding as_text
long_text v = as_text v >>= λ s. if ltb (length s) 16 then err panicked else ok s

module _ (nm : Numbers) where
  -- Every number becomes a `float64`.
  unfoldable mutual
    pub numbers_fit : Value → Bool
    numbers_fit (number n) = is_some (nm.parse_float n)
    numbers_fit (array vs) = items_fit vs
    numbers_fit (object ms) = members_fit ms
    numbers_fit _ = true

    pub items_fit : Items → Bool
    items_fit nil = true
    items_fit (item v vs) = numbers_fit v && items_fit vs

    pub members_fit : Members → Bool
    members_fit end = true
    members_fit (member k v ms) = numbers_fit v && members_fit ms

  as_map : Option Value → Result JsonError Members
  unfolding members_fit
  as_map none = err syntax
  as_map (some (object ms)) = if members_fit ms then ok ms else err mismatch
  as_map (some null) = ok end
  as_map (some _) = err mismatch

  -- `json.NewDecoder(resp.Body).Decode(&result)`, into a `map[string]interface{}`.
  unfoldable pub decode_map : Bytes → Result JsonError Members
  unfolding as_map
  decode_map body = as_map (parse_first body)

  -- `uint64(x.(float64))`
  unfoldable pub as_uint : Option Value → Result Stop ℕ
  as_uint (some (number n)) = elim (nm.parse_float n) [
    | some f ↦ ok (nm.to_uint f)
    | none ↦ err panicked
  ]
  as_uint _ = err panicked

  -- `resp.StatusCode != http.StatusOK`, and the decoder behind it.
  unfoldable pub accept : Answer → Result Stop Members
  unfolding decode_map
  accept a =
      if a.status == 200 then wrap bad_json (decode_map a.body) else err (unexpected a.status)

-- `r.URL.Query().Get(name)` of a query with these values.
abbrev pub values : List (Bytes × Bytes) → Bytes → Bytes
values [] name = []
values ((k, v) ∷ query) name = if bytes_eq name k then v else values query name

-- `http.Get(base + path?query)`
abbrev pub get_request : Bytes → List (Bytes × Bytes) → Request
get_request path query = record {
  method = codes "GET";
  path = path;
  query = values query;
  body = [];
}

-- `http.Post(base + path, …)`
abbrev pub post_request : Bytes → Bytes → Request
post_request path body = record {
  method = codes "POST";
  path = path;
  query = values [];
  body = body;
}

abbrev pub prove_request : Bytes → Request
prove_request index = get_request (codes "/token/prove") ((codes "index", index) ∷ [])

-- `{"data":""}`
abbrev empty_token : Bytes
empty_token = codes "{\"data\":\"\"}"

-- The two requests that the server must refuse.
abbrev pub far_request : Request
far_request = prove_request (codes "99999")

abbrev pub empty_request : Request
empty_request = post_request (codes "/token/submit") empty_token

module _ (log : Log) (nm : Numbers) (http : Request → Program log.State Failure Answer) where
  -- `doSubmit`
  unfoldable pub do_submit : Bytes → Program log.State Stop Members
  unfolding accept
  do_submit token =
      Programs.◌>>=◌ (call fatal (http (post_request (codes "/token/submit") (submit_body token))))
        λ a. lift (accept nm a)

  -- `doGet`
  unfoldable pub do_get : Request → Program log.State Stop Members
  unfolding accept
  do_get r = Programs.◌>>=◌ (call fatal (http r)) λ a. lift (accept nm a)
