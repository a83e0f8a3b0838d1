-- ===== src/Sprints/Endpoints/Served.antt =====
-- `doSubmit` of cmd/sprint3 against the server of internal/api.
use mathlib.Core.Path.{subst}
use tessera_transparency.Base.{
  ℕ, ◌≤◌, ◌^◌, ◌≡◌, refl, ◌≢◌, ap, ◌∙◌, [], ◌∷◌, some, arith, Bytes, IsBytes, ok, codes, true,
}
use tessera_transparency.Base.Programs.{Program}
use tessera_transparency.Text.Hex
use tessera_transparency.Text.Decimal
use tessera_transparency.Text.Decimal.{max_u64}
use tessera_transparency.Json.Value.{Value, Members, object, end}
use tessera_transparency.Json.Parse.{parse_first}
use tessera_transparency.Json.Parse.Printable.{IsPrintable}
use tessera_transparency.Json.Parse.RoundTrip.{parse_first-append}
use tessera_transparency.Schema.Fields.Laws.{ascii-IsUtf8, uint_value-IsPrintable}
use tessera_transparency.Log.{Log, Merkle, Checkpoint, Failure}
use tessera_transparency.Api.Response.{Request, Response, json, write_json, ok_status}
use tessera_transparency.Api.Handlers.{submit_response, handle_submit}
use tessera_transparency.Api.Handlers.Submit.{submit_body, handle_submit-submit_body}
use tessera_transparency.Api.Server.{serve, route, FileServer}
use tessera_transparency.Bench.Client.Laws.{json_text}
use tessera_transparency.Sprints.Endpoints.{
  Answer, Numbers, numbers_fit, members_fit, decode_map, accept, get, as_text, as_uint,
  post_request, do_submit,
}

-- Small whole numbers are floating-point numbers.
pub record IsExact (nm : Numbers) : Type 0 where
  pub exact :
      (n : ℕ)
      → n ≤ 2 ^ 53
      → (f : nm.Float) × (nm.parse_float (Decimal.format n) ≡ some f) × (nm.to_uint f ≡ n)

-- What an answer keeps of the response of a handler.
abbrev pub Carries : Response → Answer → Type 0
Carries response a =
    (a.status ≡ response.status) × ((v : Value) → response.body ≡ json v → a.body ≡ json_text v)

-- HTTP brings this request to the server, in this state, and the server's response back.
abbrev pub IsDelivered :
    (log : Log) (m : Merkle)
    → FileServer log
    → (Request → Program log.State Failure Answer)
    → Request
    → log.State
    → Type 0
IsDelivered log m files http r st =
    (a : Answer) × (http r st ≡ ((serve log m files r st).0, ok a))
    × Carries (serve log m files r st).1 a

submit_response-IsPrintable :
    (index : ℕ) (leaf : Bytes) (cp : Checkpoint)
    → index ≤ 2 ^ 53
    → cp.size ≤ 2 ^ 53
    → IsBytes leaf
    → IsBytes cp.hash
    → IsPrintable (submit_response index leaf cp)
unfolding IsPrintable
submit_response-IsPrintable index leaf cp hi hs hl hh = (
  ascii-IsUtf8 (codes "index") (omega arith),
  (
    uint_value-IsPrintable index (omega arith),
    (
      ascii-IsUtf8 (codes "leaf_hash") (omega arith),
      (
        ascii-IsUtf8 (Hex.encode leaf) (Hex.encode-IsAscii leaf hl),
        (
          ascii-IsUtf8 (codes "tree_size") (omega arith),
          (
            uint_value-IsPrintable cp.size (omega arith),
            (
              ascii-IsUtf8 (codes "root") (omega arith),
              (ascii-IsUtf8 (Hex.encode cp.hash) (Hex.encode-IsAscii cp.hash hh), tt),
            ),
          ),
        ),
      ),
    ),
  ),
)

abbrev members_of : Value → Members
members_of (object ms) = ms
members_of _ = end

module _ (nm : Numbers) (ex : IsExact nm) where
  accept_object :
      (a : Answer) (v : Value)
      → a.status ≡ ok_status
      → parse_first a.body ≡ some (object (members_of v))
      → members_fit nm (members_of v) ≡ true
      → accept nm a ≡ ok (members_of v)
  unfolding accept decode_map
  accept_object a v status read fit = rw (status, accept, read, decode_map, fit)

  submit_response-members_fit :
      (index : ℕ) (leaf : Bytes) (cp : Checkpoint)
      → index ≤ 2 ^ 53
      → cp.size ≤ 2 ^ 53
      → members_fit nm (members_of (submit_response index leaf cp)) ≡ true
  unfolding numbers_fit members_fit
  submit_response-members_fit index leaf cp hi hs =
      let (f, parsed, same) = ex.exact index hi in
      let (g, parsed', same') = ex.exact cp.size hs in rw (parsed, parsed')

  -- The fields of the map that `doSubmit` returns.
  pub record AreFields (ms : Members) (index : ℕ) (leaf : Bytes) (cp : Checkpoint) : Type 0 where
    pub index_field : as_uint nm (get (codes "index") ms) ≡ ok index
    pub leaf_field : as_text (get (codes "leaf_hash") ms) ≡ ok (Hex.encode leaf)
    pub size_field : as_uint nm (get (codes "tree_size") ms) ≡ ok cp.size
    pub root_field : as_text (get (codes "root") ms) ≡ ok (Hex.encode cp.hash)

  accept-submit_response :
      (a : Answer) (index : ℕ) (leaf : Bytes) (cp : Checkpoint)
      → index ≤ 2 ^ 53
      → cp.size ≤ 2 ^ 53
      → IsBytes leaf
      → IsBytes cp.hash
      → Carries (write_json (submit_response index leaf cp)) a
      → (ms : Members) × (accept nm a ≡ ok ms) × AreFields ms index leaf cp
  unfolding json_text as_uint as_text get
  accept-submit_response a index leaf cp hi hs hl hh (status, text) =
      let v = submit_response index leaf cp in
      let (f, parsed, same) = ex.exact index hi in
      let (g, parsed', same') = ex.exact cp.size hs in
      let read : parse_first a.body ≡ some v =
        ap (λ b. parse_first b) (text v refl)
        ∙ parse_first-append v (b'\n' ∷ []) (submit_response-IsPrintable index leaf cp hi hs hl hh)
            (omega arith) in
      (
        members_of v,
        accept_object a v status read (submit_response-members_fit index leaf cp hi hs),
        record {
          index_field = rw parsed (ap (λ n. ok n) same);
          leaf_field = refl;
          size_field = rw parsed' (ap (λ n. ok n) same');
          root_field = refl;
        },
      )

module _ (log : Log) (m : Merkle) (files : FileServer log) (nm : Numbers)
    (http : Request → Program log.State Failure Answer) where
  serve-handle_submit :
      (body : Bytes) (st : log.State)
      → serve log m files (post_request (codes "/token/submit") body) st
        ≡ handle_submit log m (post_request (codes "/token/submit") body) st
  unfolding serve route
  serve-handle_submit body st = refl

  do_submit_lem :
      (token : Bytes) (st st' : log.State) (ms : Members) (a : Answer)
      → http (post_request (codes "/token/submit") (submit_body token)) st ≡ (st', ok a)
      → accept nm a ≡ ok ms
      → do_submit log nm http token st ≡ (st', ok ms)
  unfolding do_submit
  do_submit_lem token st st' ms a sent accepted = rw sent (rw (accepted, do_submit))

  -- Where HTTP brings the request to the server and its response back, and the log takes the token,
  -- `doSubmit` appends exactly its bytes, and returns a map with the index and the checkpoint that the
  -- log gave and the leaf hash of the token. The token is not empty, tokens and hashes are bytes, the
  -- numbers are at most 2^53, and numbers up to 2^53 are exact as floating-point numbers.
  pub do_submit-serve :
      (ex : IsExact nm) (st st' : log.State) (token raw : Bytes) (index : ℕ) (cp : Checkpoint)
      → IsDelivered log m files http (post_request (codes "/token/submit") (submit_body token)) st
      → IsBytes token
      → token ≢ []
      → log.append st token ≡ (st', ok (index, raw))
      → log.unmarshal_checkpoint raw ≡ ok cp
      → index ≤ 2 ^ 53
      → cp.size ≤ 2 ^ 53
      → IsBytes (m.sha256 (0 ∷ token))
      → IsBytes cp.hash
      → (ms : Members) × (do_submit log nm http token st ≡ (st', ok ms))
        × AreFields nm ex ms index (m.sha256 (0 ∷ token)) cp
  do_submit-serve ex st st' token raw index cp delivered h filled appended parsed hi hs hl hh =
      let r = post_request (codes "/token/submit") (submit_body token) in
      let answer = write_json (submit_response index (m.sha256 (0 ∷ token)) cp) in
      let served : serve log m files r st ≡ (st', answer) =
        serve-handle_submit (submit_body token) st
        ∙ handle_submit-submit_body log m r st st' token raw index cp refl h filled appended
            parsed in
      let (a, sent, carried) = delivered in
      let carried' = subst (λ (p : log.State × Response). Carries p.1 a) served carried in
      let (ms, accepted, fields) =
        accept-submit_response nm ex a index (m.sha256 (0 ∷ token)) cp hi hs hl hh carried' in
      (
        ms,
        do_submit_lem token st st' ms a
            (sent ∙ ap (λ (p : log.State × Response). (p.0, ok a)) served) accepted,
        fields,
      )
