-- ===== src/Api/Server/Laws.antt =====
-- The routes of internal/api/server.go: which requests can change the log.
use tessera_transparency.Base.{
  ◌≡◌, refl, ◌≢◌, Bytes, Bool, true, false, ◌&&◌, bytes_eq, bytes_eq_sound, codes, arith, inl, inr,
  Bool-cases,
}
use tessera_transparency.Log.{Log, Merkle}
use tessera_transparency.Api.Response.{Request, bad_request}
use tessera_transparency.Api.Handlers.Submit.{handle_submit-bad_request}
use tessera_transparency.Api.Server.{
  Endpoint, submit, prove, sth, consistency, checkpoint, files, posts, route, serve, serve_endpoint,
  FileServer,
}

&&-true : (a b : Bool) → (a && b) ≡ true → (a ≡ true) × (b ≡ true)
&&-true true b h = (refl, h)
&&-true false b h = cc

posts_sound :
    (path : Bytes) (r : Request) → posts path r ≡ true → (r.method ≡ codes "POST") × (r.path ≡ path)
unfolding posts
posts_sound path r found =
    let (method, at) = &&-true (bytes_eq r.method (codes "POST")) (bytes_eq r.path path) found in
    (bytes_eq_sound r.method (codes "POST") method, bytes_eq_sound r.path path at)

-- Only the two texts of the pattern are taken for a submission.
route-submit :
    (r : Request) → route r ≡ submit → (r.method ≡ codes "POST") × (r.path ≡ codes "/token/submit")
unfolding route
route-submit r h = elim (Bool-cases (posts (codes "/token/submit") r)) [
  | inl found ↦ posts_sound (codes "/token/submit") r found
  | inr missed ↦ absurd (ground arith)
]

module _ (log : Log) (m : Merkle) (file_server : FileServer log) where
  submit_endpoint :
      (e : Endpoint) (r : Request) (st : log.State)
      → (serve_endpoint log m file_server e r st).0 ≢ st
      → (e ≡ submit) × ((serve_endpoint log m file_server e r st).1.status ≢ bad_request)
  unfolding serve_endpoint
  submit_endpoint submit r st moved = (refl, λ h. moved (handle_submit-bad_request log m r st h))
  submit_endpoint prove r st moved = absurd (moved refl)
  submit_endpoint sth r st moved = absurd (moved refl)
  submit_endpoint consistency r st moved = absurd (moved refl)
  submit_endpoint checkpoint r st moved = absurd (moved refl)
  submit_endpoint files r st moved = absurd (moved refl)

  -- The log changes only by a POST of exactly the path /token/submit, and only if the answer is not
  -- 400: every other method and path, and every refused body, leaves it as it was.
  pub serve_changed :
      (r : Request) (st : log.State)
      → (serve log m file_server r st).0 ≢ st
      → (r.method ≡ codes "POST")
        × (r.path ≡ codes "/token/submit")
        × ((serve log m file_server r st).1.status ≢ bad_request)
  unfolding serve
  serve_changed r st moved =
      let (at, answered) = submit_endpoint (route r) r st moved in
      let (method, path) = route-submit r at in (method, path, answered)
