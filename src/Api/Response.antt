-- ===== src/Api/Response.antt =====
-- Requests and responses of `net/http`, as the handlers use them. The text of an error is kept as
-- data, with the values that the source formats into it.
use tessera_transparency.Base.{ℕ, ◌∷◌, [], List, Bytes, codes}
use tessera_transparency.Text.Decimal.{NumError}
use tessera_transparency.Json.Value.{Value}
use tessera_transparency.Schema.Fields.{JsonError}
use tessera_transparency.Log.{Failure}

pub record Request : Type 0 where
  pub method : Bytes
  pub path : Bytes
  -- `r.URL.Query().Get(name)`: the empty text where the name is missing.
  pub query : Bytes → Bytes
  pub body : Bytes

pub data Message : Type 0 where
  invalid_body : JsonError → Message
  invalid_data : Message
  append_failed checkpoint_failed failed read_checkpoint parse_checkpoint : Failure → Message
  missing : Bytes → Message
  invalid : Bytes → NumError → Message
  out_of_range : ℕ → ℕ → Message
  invalid_range : Message
  not_less : Message
  exceeds : ℕ → ℕ → Message

pub data Body : Type 0 where
  json : Value → Body
  plain : Message → Body
  raw : Bytes → Body

abbrev pub Headers : Type 0
Headers = List (Bytes × Bytes)

pub record Response : Type 0 where
  pub status : ℕ
  pub headers : Headers
  pub body : Body

abbrev pub ok_status : ℕ
ok_status = 200

abbrev pub bad_request : ℕ
bad_request = 400

abbrev pub not_found : ℕ
not_found = 404

abbrev pub server_error : ℕ
server_error = 500

-- `http.Error(w, message, status)`
abbrev pub http_error : Message → ℕ → Response
http_error m status = record {
  status = status;
  headers =
      (codes "Content-Type", codes "text/plain; charset=utf-8")
      ∷ (codes "X-Content-Type-Options", codes "nosniff")
      ∷ [];
  body = plain m;
}

-- `writeJSON`: the value, with a newline behind it.
abbrev pub write_json : Value → Response
write_json v = record {
  status = ok_status;
  headers = (codes "Content-Type", codes "application/json") ∷ [];
  body = json v;
}
