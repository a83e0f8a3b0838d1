-- ===== src/Api/Server.antt =====
-- `NewServer` of internal/api/server.go with `Register` of internal/api/handler.go: the routes, the
-- checkpoint endpoint and the tile files. Listening and shutting down (`Start`) are not modelled.
pub mod Laws
use tessera_transparency.Base.{
  ℕ, List, [], ◌∷◌, Bytes, Result, ok, err, Bool, ◌&&◌, ◌||◌, if◌then◌else◌, bytes_eq, codes,
}
use tessera_transparency.Log.{Log, Merkle, Failure}
use tessera_transparency.Api.Response.{
  Request, Response, Headers, Body, raw, failed, http_error, server_error, ok_status,
}
use tessera_transparency.Api.Handlers.{handle_submit, handle_prove, handle_sth, handle_consistency}

pub data Endpoint : Type 0 where
  submit prove sth consistency checkpoint files : Endpoint

-- A pattern `POST path` of `http.ServeMux`.
posts : Bytes → Request → Bool
posts path r = bytes_eq r.method (codes "POST") && bytes_eq r.path path

-- A pattern `GET path`: it matches HEAD too.
gets : Bytes → Request → Bool
gets path r =
    (bytes_eq r.method (codes "GET") || bytes_eq r.method (codes "HEAD")) && bytes_eq r.path path

-- The patterns of the mux. The paths differ, so no two of them match one request, and the pattern
-- `/`, which has no method, takes what is left.
unfoldable pub route : Request → Endpoint
unfolding posts gets
route r =
    if posts (codes "/token/submit") r
    then submit
    else if gets (codes "/token/prove") r
    then prove
    else if gets (codes "/log/sth") r
    then sth
    else if gets (codes "/log/consistency") r
    then consistency
    else if gets (codes "/checkpoint") r
    then checkpoint
    else files

-- `addCacheHeaders`: the headers that the handler behind it starts from.
unfoldable pub cache_headers : Headers
cache_headers =
    (codes "Access-Control-Allow-Origin", codes "*")
    ∷ (codes "Cache-Control", codes "public, max-age=86400, immutable")
    ∷ []

add_cache_headers : {A : Type 0} → (Headers → A) → A
unfolding cache_headers
add_cache_headers next = next cache_headers

-- `http.FileServer(http.Dir(logDir))`: it answers from the files of the log, given the headers set
-- so far.
abbrev pub FileServer : Log → Type 0
FileServer log = Headers → Request → log.State → Response

module _ (log : Log) (m : Merkle) (file_server : FileServer log) where
  -- The handler of `GET /checkpoint`.
  unfoldable pub handle_checkpoint : log.State → Response
  handle_checkpoint st = elim (log.read_checkpoint st) [
    | err e ↦ http_error (failed e) server_error
    | ok cp ↦ record {
      status = ok_status;
      headers = (codes "Content-Type", codes "text/plain; charset=utf-8") ∷ [];
      body = raw cp;
    }
  ]

  serve_endpoint : Endpoint → Request → log.State → log.State × Response
  unfolding add_cache_headers handle_checkpoint
  serve_endpoint submit r st = handle_submit log m r st
  serve_endpoint prove r st = (st, handle_prove log m r st)
  serve_endpoint sth r st = (st, handle_sth log m st)
  serve_endpoint consistency r st = (st, handle_consistency log m r st)
  serve_endpoint checkpoint r st = (st, handle_checkpoint st)
  serve_endpoint files r st = (st, add_cache_headers file_server r st)

  unfoldable pub serve : Request → log.State → log.State × Response
  unfolding serve_endpoint
  serve r st = serve_endpoint (route r) r st
