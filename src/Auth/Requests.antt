-- ===== src/Auth/Requests.antt =====
-- main/auth.cpp: a request's body, the replies, the wrapper that answers 401.
use zhac_mono_core.Prelude.{
  ℕ, zero, suc, ◌-◌, ◌||◌, Option, none, some, List, [], ◌∷◌, ◌++◌, if◌then◌else◌, leb, ◌==◌,
  length, take, String,
}
use zhac_mono_core.Prelude.Text.{bytes}
use zhac_mono_core.Auth.Lockout.{Turn}
use zhac_mono_core.Auth.State.{Auth}
use zhac_mono_core.Auth.Token.{check_request}

-- What esp_http_server gives: the peer's address (0 where it has none), the X-Api-Key header where it is there and fits,
-- the announced length of the body, and what each httpd_req_recv brings ([] where it returns 0 or an error).
pub record Request : Type 0 where
  pub peer_ipv4 : ℕ
  pub api_key : Option (List ℕ)
  pub content_len : ℕ
  pub chunks : List (List ℕ)

-- The status line where it is not "200 OK", and the body.
pub record Response : Type 0 where
  pub status : Option String
  pub body : List ℕ

-- A parsed body: the members that are strings.
abbrev pub Doc : Type 0
Doc = String → Option (List ℕ)

unfoldable pub reply : Option String → String → Response
reply status body = record { status = status; body = bytes body }

unfoldable pub invalid_request : Response
unfolding reply
invalid_request = reply (some "400 Bad Request") "{\"error\":\"invalid request\"}"

unfoldable pub unauthorized : Response
unfolding reply
unauthorized = reply (some "401 Unauthorized") "{\"error\":\"unauthorized\"}"

-- The loop over httpd_req_recv, with `left` bytes to come.
unfoldable pub receive : List (List ℕ) → ℕ → Option (List ℕ)
receive chunks zero = some []
receive [] (suc left) = none
receive (c ∷ chunks) (suc left) =
    let some_bytes = take (suc left) c in
    if length some_bytes == 0 then none else elim (receive chunks (suc left - length some_bytes)) [
      | none ↦ none
      | some later ↦ some (some_bytes ++ later)
    ]

-- None is a body that was answered with 400 already. `parse` stands for ArduinoJson's deserializeJson.
unfoldable pub read_json : (List ℕ → Option Doc) → Request → ℕ → Option Doc
read_json parse req cap =
    if req.content_len == 0 || leb cap req.content_len || leb 320 req.content_len
    then none
    else elim (receive req.chunks req.content_len) [ none ↦ none | some buf ↦ parse buf ]

-- `rsp` has 64 bytes.
unfoldable pub send_token : List ℕ → Response
send_token t = record {
  status = none;
  body = take 63 (bytes "{\"ok\":true,\"token\":\"" ++ (t ++ bytes "\"}"));
}

-- A route behind the gate.
unfoldable pub gated :
    {Flash : Type 0}
    → (Auth Flash → Request → Auth Flash × Response)
    → Auth Flash
    → Request
    → Turn
    → Turn
    → Auth Flash × Response
gated handler a req first second =
    let checked = check_request a req.peer_ipv4 req.api_key first second in
    if checked.1 then handler checked.0 req else (checked.0, unauthorized)
