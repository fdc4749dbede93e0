-- ===== src/Commands/Server.antt =====
-- server.go: what the server of a pool does with a request.
use Prim.Native.String.{len, slice}
use vipnode.Base.{
  ℕ, String, Bool, Option, none, some, List, [], ◌∷◌, ◌&&◌, ◌-◌, leb, ◌==◌, if◌then◌else◌,
}
use vipnode.Base.Exec.{Exec, Result, ok, err}
use vipnode.Dict.{Dict, set}
use vipnode.Jsonrpc.Server.{Json, Method}
use vipnode.Jsonrpc.Http.{
  Codec, HttpRequest, Written, status_ok, server_failed, http_error, serve_http,
}

-- What becomes of a request: a response with its headers, or a connection with the limits of its waiting
-- calls.
pub data Served (B : Type 0) : Type 0 where
  responded : Dict String → Written B → Served B
  connected : ℕ → ℕ → Served B

-- `Header().Set` of each value, so that the last one of a key stays
abbrev pub set_values : String → List String → Dict String → Dict String
set_values key [] headers = headers
set_values key (v ∷ rest) headers = set_values key rest (set key v headers)

unfoldable pub set_headers : List (String × List String) → Dict String → Dict String
set_headers [] headers = headers
set_headers ((key, values) ∷ rest) headers = set_headers rest (set_values key values headers)

-- `strings.HasSuffix`
abbrev pub has_suffix : String → String → Bool
has_suffix s t = leb (len t) (len s) && slice s (len s - len t) (len s) == t

-- A request for a websocket, by how `Upgrade` ends
abbrev pub after_upgrade : {J B : Type 0} → Json J → Codec J B → Result (Unit {0}) → Served B
after_upgrade json codec (ok _) = connected 50 10
after_upgrade json codec (err e) =
    responded [] (http_error json codec "incorrect vipnode websocket api handshake" 400)

module _ {S J B : Type 0} (json : Json J) (codec : Codec J B) where
  abbrev pub health_response : Option (Exec S B) → S → Written B × S
  health_response none s = (http_error json codec "detailed health check disabled" status_ok, s)
  health_response (some check) s =
      let (r, s') = check s in
      (
        elim r [
          | ok bytes ↦ record { status = status_ok; bytes = some bytes }
          | err e ↦ http_error json codec (json.error_text e) server_failed
        ],
        s',
      )

  -- `ServeHTTP` of a server with its headers, its check and its registry, up to the life of a connection
  unfoldable pub serve_request :
      List (String × List String)
      → Option (Exec S B)
      → (HttpRequest B → Result (Unit {0}))
      → ℕ
      → Dict (Method S J)
      → String
      → HttpRequest B
      → S
      → Served B × S
  unfolding set_headers serve_http
  serve_request headers health upgrade max registry path req s =
      if has_suffix path "/health"
      then (let (w, s') = health_response health s in (responded [] w, s'))
      else if req.method == "POST"
      then (let (w, s') = serve_http json codec max registry req s in
          (responded (set_headers headers []) w, s'))
      else if req.method == "GET"
      then (after_upgrade json codec (upgrade req), s)
      else (responded [] (http_error json codec "unsupported method" 415), s)
