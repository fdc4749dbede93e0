-- ===== src/Jsonrpc/Server.antt =====
-- jsonrpc2/server.go, client.go and local.go: a registry of methods, and calls of them. Reflection and
-- the JSON codec are parameters; `J` is the type of JSON texts.
use Prim.Native.String.{◌++◌}
use vipnode.Base.{
  ◌^◌, ◌-◌, String, Bool, true, false, ◌||◌, Option, none, some, List, [], ◌∷◌, ◌==◌, if◌then◌else◌,
}
use vipnode.Base.Exec.{Exec, Result, ok, err, Error, rpc_error, external}
use vipnode.Int.{ℤ, pos, negsuc, ◌+ℤ◌, eqb_ℤ}
use vipnode.Dict.{Dict, get, set}
use vipnode.Jsonrpc.Errors.{
  method_not_found, invalid_params, internal_error, invalid_request, server_error,
}

-- What a method reads of its `context.Context`: the service under `ctxService`, by its name.
abbrev pub Context : Type 0
Context = Option String

-- `CtxService`
abbrev pub ctx_service : Context → Result String
ctx_service none = err (external "context missing value: service")
ctx_service (some service) = ok service

-- A method of a receiver with state `S`: the decoding of its arguments, and the call; a method
-- without a value returns none.
pub record Method (S J : Type 0) : Type 0 where
  pub parse_arguments : J → Result (List J)
  pub call : Context → List J → Exec S (Option J)

pub record ErrResponse : Type 0 where
  pub code : ℤ
  pub message : String

pub record Request (J : Type 0) : Type 0 where
  pub method : String
  pub params : J

-- A missing result is none.
pub record Response (J : Type 0) : Type 0 where
  pub result : Option J
  pub error : Option ErrResponse

pub record Message (J : Type 0) : Type 0 where
  pub id : J
  pub request : Option (Request J)
  pub response : Option (Response J)

-- `json.Marshal` of a value, of a number and of arguments, the text "null", whether a text is empty or
-- "null", and how texts and errors are printed.
pub record Json (J : Type 0) : Type 0 where
  pub marshal : J → Result J
  pub marshal_id : ℤ → Result J
  pub marshal_params : List J → Result J
  pub null : J
  pub is_null : J → Bool
  pub error_text : Error → String
  pub show : J → String

abbrev pub is_allowed : List String → String → Bool
is_allowed [] name = false
is_allowed (a ∷ rest) name = a == name || is_allowed rest name

-- Whether a name passes the list of names; an empty list is none.
abbrev pub passes : List String → String → Bool
passes [] name = true
passes (a ∷ rest) name = is_allowed (a ∷ rest) name

-- `unicode.ToLower` of the first letter of an exported name is the parameter `lower_first`.
module _ {S J : Type 0} (lower_first : String → String) where
  -- `Register`, over the methods that reflection finds.
  unfoldable pub register_all :
      String → List String → List (String × Method S J) → Dict (Method S J) → Dict (Method S J)
  register_all prefix only [] registry = registry
  register_all prefix only ((name, m) ∷ rest) registry = register_all prefix only rest (
      if passes only (lower_first name)
      then set (prefix ++ lower_first name) m registry
      else registry)

  unfoldable pub register :
      String
      → List String
      → Result (List (String × Method S J))
      → Exec (Dict (Method S J)) (Unit {0})
  unfolding register_all
  register prefix only (err x) registry = (err x, registry)
  register prefix only (ok []) registry = (err (external "no public methods"), registry)
  register prefix only (ok (m ∷ ms)) registry = (ok tt, register_all prefix only (m ∷ ms) registry)

  -- `RegisterMethod`
  unfoldable pub register_method :
      String → Result (Method S J) → Exec (Dict (Method S J)) (Unit {0})
  register_method rpc_name (err x) registry = (err x, registry)
  register_method rpc_name (ok m) registry = (ok tt, set rpc_name m registry)

-- `NextID`, an int32 that wraps around.
unfoldable pub next_id : ℤ → ℤ
next_id id = if eqb_ℤ id (pos (2 ^ 31 - 1)) then negsuc (2 ^ 31 - 1) else id +ℤ pos 1

-- A request, of its encoded ID and its encoded arguments.
abbrev pub make_request : {J : Type 0} → String → Result J → Result J → Result (Message J)
make_request method (err e) params = err e
make_request method (ok id) (err e) = err e
make_request method (ok id) (ok out) =
    ok (record {
      id = id;
      request = some (record { method = method; params = out });
      response = none;
    })

module _ {J : Type 0} (json : Json J) where
  abbrev pub failed : ℤ → String → Response J
  failed code message = record {
    result = some json.null;
    error = some (record { code = code; message = message });
  }

  -- What a call of a method returned.
  abbrev pub answer_of : Result (Option J) → Response J
  answer_of (err x) = failed internal_error (json.error_text x)
  answer_of (ok none) = record { result = some json.null; error = none }
  answer_of (ok (some v)) = elim (json.marshal v) [
    | ok out ↦ record { result = some out; error = none }
    | err x ↦ record {
      result = none;
      error = some (record {
        code = server_error;
        message = "failed to encode response: " ++ json.error_text x;
      });
    }
  ]

  abbrev pub respond : Message J → Response J → Message J
  respond req r = record { id = req.id; request = none; response = some r }

  -- `UnmarshalResult`: a result that is missing or null is none. Its text is left to the caller to decode.
  unfoldable pub unmarshal_result : Response J → Result (Option J)
  unmarshal_result r = elim r.error [
    | some x ↦ err (rpc_error x.code x.message)
    | none ↦ elim r.result [
      | none ↦ ok none
      | some v ↦ if json.is_null v then ok none else ok (some v)
    ]
  ]

  -- `Client.Request`: the ID is used up even if the arguments cannot be encoded.
  unfoldable pub client_request : String → List J → ℤ → Result (Message J) × ℤ
  client_request method params id =
      (make_request method (json.marshal_id (next_id id)) (json.marshal_params params), next_id id)

  abbrev pub outcome : Option (Response J) → Result (Option J)
  outcome none = err (Error.panic "nil pointer dereference")
  outcome (some r) = unmarshal_result r

module _ {S J : Type 0} (json : Json J) where
  unfoldable pub dispatch : Context → Dict (Method S J) → Request J → S → Response J × S
  dispatch ctx registry req s = elim (get req.method registry) [
    | none ↦ (failed json method_not_found ("method not found: " ++ req.method), s)
    | some m ↦ elim (m.parse_arguments req.params) [
      | err x ↦ (
        failed json invalid_params
            ("invalid params: " ++ (req.method ++ (" " ++ json.show req.params))),
        s,
      )
      | ok args ↦ let (r, s') = m.call ctx args s in (answer_of json r, s')
    ]
  ]

  -- `Handle`
  unfoldable pub handle : Context → Dict (Method S J) → Message J → S → Message J × S
  unfolding dispatch
  handle ctx registry req s = elim req.request [
    | none ↦ (respond json req (failed json invalid_request "server received misformed request"), s)
    | some body ↦ let (r, s') = dispatch ctx registry body s in (respond json req r, s')
  ]

  -- `Local.Call` of the service with a name, which its context carries, over the state of the receivers and
  -- the last ID.
  unfoldable pub local_call : String → Dict (Method S J) → String → List J → Exec (S × ℤ) (Option J)
  unfolding handle client_request unmarshal_result
  local_call self registry method params (s, id) =
      let (made, id') = client_request json method params id in
      elim made [
        | err x ↦ (err x, (s, id'))
        | ok req ↦
            let (answer, s') = handle (some self) registry req s in
            (outcome json answer.response, (s', id'))
      ]
