-- ===== src/Jsonrpc/Http.antt =====
-- jsonrpc2/http.go: calls over HTTP. The JSON codec and net/http are parameters; `B` is the type of
-- bodies.
pub mod Local
use Prim.Native.String.{◌++◌}
use vipnode.Base.{
  ℕ, ◌≤◌, String, Bool, true, false, ◌&&◌, ◌||◌, not, Option, none, some, List, ◌==◌, ltb, leb,
  if◌then◌else◌,
}
use vipnode.Base.Exec.{Exec, Result, ok, err, Error, external}
use vipnode.Int.{ℤ, pos, negsuc, eqb_ℤ}
use vipnode.Dict.{Dict}
use vipnode.Jsonrpc.Server.{
  Json, Message, Method, Response, client_request, handle, unmarshal_result,
}

pub record Codec (J B : Type 0) : Type 0 where
  pub encode : Message J → Result B
  pub decode : B → Result (Message J)
  pub limited : ℕ → B → B
  pub text : String → B
  pub show_status : ℕ → String

-- A length of -1 is one that is not known.
pub record HttpRequest (B : Type 0) : Type 0 where
  pub method : String
  pub content_length : ℤ
  pub raw_query : String
  pub body : B

pub record HttpResponse (B : Type 0) : Type 0 where
  pub status : ℕ
  pub content_length : ℤ
  pub body : B

-- What a handler wrote: the status and the bytes, if any.
pub record Written (B : Type 0) : Type 0 where
  pub status : ℕ
  pub bytes : Option B

-- What the client and the server use of net/http.
pub record Transport (B : Type 0) : Type 0 where
  pub new_request : String → String → B → Result (HttpRequest B)
  pub finished : Written B → HttpResponse B

abbrev pub exceeds : ℤ → ℕ → Bool
exceeds (pos n) max = ltb 0 max && ltb max n
exceeds (negsuc n) max = false

-- The limit of a body; a limit of 0 or below is none.
abbrev pub limit_body : {J B : Type 0} → Codec J B → ℕ → B → B
limit_body codec max body = if ltb 0 max then codec.limited max body else body

abbrev pub status_ok : ℕ
status_ok = 200

abbrev pub method_not_allowed : ℕ
method_not_allowed = 405

abbrev pub request_too_large : ℕ
request_too_large = 413

abbrev pub server_failed : ℕ
server_failed = 500

-- `HTTPRequestError`
abbrev pub http_request_error : String → Error
http_request_error reason = external ("http rpc request error: " ++ reason)

module _ {J B : Type 0} (json : Json J) (codec : Codec J B) where
  -- `http.Error`
  abbrev pub http_error : String → ℕ → Written B
  http_error message status = record { status = status; bytes = some (codec.text message) }

  abbrev pub write_message : Result B → Written B
  write_message (ok bytes) = record { status = status_ok; bytes = some bytes }
  write_message (err e) = http_error (json.error_text e) server_failed

  -- The answer of `Call` once the response is there.
  unfoldable pub read_response : ℕ → HttpResponse B → Result (Option J)
  unfolding unmarshal_result
  read_response max resp =
      if ltb resp.status 200 || leb 300 resp.status
      then err (http_request_error ("bad status code: " ++ codec.show_status resp.status))
      else if exceeds resp.content_length max
      then err (http_request_error "response too large")
      else elim (codec.decode (limit_body codec max resp.body)) [
        | err e ↦ err e
        | ok msg ↦ elim msg.response [
          | none ↦ err (http_request_error "missing response in RPC message")
          | some r ↦ unmarshal_result json r
        ]
      ]

module _ {S J B : Type 0} (json : Json J) (codec : Codec J B) where
  abbrev pub answer_request : Dict (Method S J) → Result (Message J) → S → Written B × S
  answer_request registry (err e) s =
      (http_error json codec ("failed to parse request: " ++ json.error_text e) server_failed, s)
  answer_request registry (ok msg) s =
      let (resp, s') = handle json none registry msg s in
      (write_message json codec (codec.encode resp), s')

  -- `ServeHTTP`; the context of a request carries no service.
  unfoldable pub serve_http : ℕ → Dict (Method S J) → HttpRequest B → S → Written B × S
  unfolding handle
  serve_http max registry req s =
      if req.method == "GET" && eqb_ℤ req.content_length (pos 0) && req.raw_query == ""
      then (record { status = status_ok; bytes = none }, s)
      else if not (req.method == "POST")
      then (http_error json codec "method not allowed" method_not_allowed, s)
      else if exceeds req.content_length max
      then (http_error json codec "request too large" request_too_large, s)
      else answer_request registry (codec.decode (limit_body codec max req.body)) s

  -- `HTTPService.Call`, over the state behind `HTTPClient.Do` and the last ID
  unfoldable pub http_call :
      Transport B
      → (HttpRequest B → Exec S (HttpResponse B))
      → String
      → ℕ
      → String
      → List J
      → Exec (S × ℤ) (Option J)
  unfolding client_request read_response
  http_call transport send endpoint max method params (s, id) =
      let (made, id') = client_request json method params id in
      elim made [
        | err e ↦ (err e, (s, id'))
        | ok msg ↦ elim (codec.encode msg) [
          | err e ↦ (err e, (s, id'))
          | ok body ↦ elim (transport.new_request "POST" endpoint body) [
            | err e ↦ (err e, (s, id'))
            | ok req ↦
                let (answer, s') = send req s in
                (
                  elim answer [ err e ↦ err e | ok resp ↦ read_response json codec max resp ],
                  (s', id'),
                )
          ]
        ]
      ]
