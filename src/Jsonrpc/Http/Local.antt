-- ===== src/Jsonrpc/Http/Local.antt =====
-- A call over HTTP does what a local call does.
use vipnode.Base.{
  ap, none, ◌≡◌, refl, sym, subst, inl, inr, String, Option-cases, some, List, arith, eq_iff,
}
use vipnode.Base.Exec.{Exec, ok}
use vipnode.Base.Exec.{Result-cases}
use vipnode.Int.{ℤ}
use vipnode.Dict.{Dict, get}
use vipnode.Jsonrpc.Server.{
  Json, Message, Method, Response, client_request, dispatch, handle, local_call, unmarshal_result,
  Request, answer_of, next_id,
}
use vipnode.Jsonrpc.Http.{
  Codec, HttpRequest, HttpResponse, Written, Transport, read_response, serve_http, http_call,
  status_ok,
}

-- A message that is encoded, and decoded again as it was. Not every message is: texts are made compact,
-- for one thing.
abbrev pub Travels : {J B : Type 0} → Codec J B → Message J → Type 0
Travels codec msg = (body : _) × (codec.encode msg ≡ ok body) × (codec.decode body ≡ ok msg)

-- net/http carries the method, the body and the status as they are; the length that it gives is that
-- of the body, or is not known.
pub record TransportFaithful {B : Type 0} (t : Transport B) : Type 0 where
  pub requested :
      (endpoint : String) (body : B)
      → (req : HttpRequest B) × (t.new_request "POST" endpoint body ≡ ok req)
        × (req.method ≡ "POST")
        × (req.body ≡ body)
  pub status_kept : (w : Written B) → (t.finished w).status ≡ w.status
  pub body_kept : (w : Written B) (bytes : B) → w.bytes ≡ some bytes → (t.finished w).body ≡ bytes

-- A client of a server in the same process.
abbrev pub loopback :
    {S J B : Type 0}
    → Json J
    → Codec J B
    → Transport B
    → Dict (Method S J)
    → HttpRequest B
    → Exec S (HttpResponse B)
loopback json codec t registry req s =
    let (w, s') = serve_http json codec 0 registry req s in (ok (t.finished w), s')

-- The request of a call, if there is one, and its answer travel.
abbrev pub CallTravels :
    {S J B : Type 0} → Json J → Codec J B → Dict (Method S J) → String → List J → S → ℤ → Type 0
CallTravels json codec registry method params s id =
    (msg : Message _)
    → (client_request json method params id).0 ≡ ok msg
    → Travels codec msg × Travels codec (handle json none registry msg s).0

-- A registered method does the same without the service as with it.
abbrev pub IgnoresService : {S J : Type 0} → String → Dict (Method S J) → String → Type 0
IgnoresService self registry method =
    (m : Method _ _)
    → get method registry ≡ some m
    → (args : List _) (s : _) → m.call (some self) args s ≡ m.call none args s

module _ {S J : Type 0} (json : Json J) (registry : Dict (Method S J)) (self method : String)
    (ignores : IgnoresService self registry method) where
  dispatch-same :
      (out : J) (s : S)
      → let req : Request J = record { method = method; params = out } in
        dispatch json (some self) registry req s ≡ dispatch json none registry req s
  unfolding dispatch
  dispatch-same out s = elim (Option-cases (get method registry)) [
    | inl absent ↦ rw (absent, dispatch) refl
    | inr (m, found) ↦ elim (Result-cases (m.parse_arguments out)) [
      | inr (x, bad) ↦ rw (found, bad, dispatch) refl
      | inl (args, good) ↦
          rw (found, good, dispatch) (ap (λ r. (answer_of json r.0, r.1)) (ignores m found args s))
    ]
  ]

  handle-same :
      (msg : Message J) (params : List J) (id : ℤ) (s : S)
      → (client_request json method params id).0 ≡ ok msg
      → handle json (some self) registry msg s ≡ handle json none registry msg s
  unfolding handle client_request
  handle-same msg params id s made = elim (Result-cases (json.marshal_id (next_id id))) [
    | inr (x, bad_id) ↦ ground (arith, made, bad_id)
    | inl (text, good_id) ↦ elim (Result-cases (json.marshal_params params)) [
      | inr (x, bad) ↦ ground (arith, made, good_id, bad)
      | inl (out, good) ↦ ground (arith, made, good_id, good, dispatch-same out s)
    ]
  ]

module _ {S J B : Type 0} (json : Json J) (codec : Codec J B) (registry : Dict (Method S J)) where
  -- A POST request that can be decoded is handled.
  serve_http-post :
      (req : HttpRequest B) (msg : Message J) (s : S) (bytes : B)
      → req.method ≡ "POST"
      → codec.decode req.body ≡ ok msg
      → codec.encode (handle json none registry msg s).0 ≡ ok bytes
      → serve_http json codec 0 registry req s
        ≡ (record { status = status_ok; bytes = some bytes }, (handle json none registry msg s).1)
  unfolding serve_http
  serve_http-post req msg s bytes posted decoded encoded = ground (
    arith,
    posted,
    decoded,
    encoded,
    eq_iff req.method "GET",
    eq_iff req.method "POST",
    eq_iff "POST" "GET",
  )

  handle-responds :
      (msg : Message J) (s : S)
      → (r : Response J) × ((handle json none registry msg s).0.response ≡ some r)
  unfolding handle
  handle-responds msg s = elim (Option-cases (handle json none registry msg s).0.response) [
    | inl e ↦ absurd (ground (arith, e))
    | inr (r, e) ↦ (r, e)
  ]

  read_response-finished :
      (t : Transport B) (bytes : B) (answer : Message J) (r : Response J)
      → TransportFaithful t
      → codec.decode bytes ≡ ok answer
      → answer.response ≡ some r
      → read_response json codec 0 (t.finished (record { status = status_ok; bytes = some bytes }))
        ≡ unmarshal_result json r
  unfolding read_response
  read_response-finished t bytes answer r faithful decoded responds =
      let w : Written B = record { status = status_ok; bytes = some bytes } in
      ground (arith, faithful.status_kept w, faithful.body_kept w bytes refl, decoded, responds)

-- A call over HTTP to a server, neither of them with a limit, over a faithful transport, does what the
-- call of a local server does: it gives the same result or error, and leaves the same state of the
-- receivers and the same last ID. The called method has to do without the service in its context, which
-- HTTP does not give, and the request and its answer have to be decoded as they were encoded.
pub http_call-local_call :
    {S J B : Type 0} (json : Json J) (codec : Codec J B) (t : Transport B)
    (registry : Dict (Method S J)) (self endpoint method : String) (params : List J) (s : S)
    (id : ℤ)
    → IgnoresService self registry method
    → CallTravels json codec registry method params s id
    → TransportFaithful t
    → http_call json codec t (loopback json codec t registry) endpoint 0 method params (s, id)
      ≡ local_call json self registry method params (s, id)
unfolding http_call local_call
http_call-local_call json codec t registry self endpoint method params s id ignores travels
      carries =
    elim (Result-cases (client_request json method params id).0) [
      | inr (x, bad) ↦ ground (arith, bad)
      | inl (msg, good) ↦
          let ((body, encoded, decoded), (bytes, written, reread)) = travels msg good in
          let same = handle-same json registry self method ignores msg params id s good in
          let (req, made, posted, carried) = carries.requested endpoint body in
          let (answer, s') = handle json none registry msg s in
          let (r, responds) = handle-responds json codec registry msg s in
          ground (
            arith,
            good,
            same,
            encoded,
            made,
            serve_http-post json codec registry req msg s bytes posted
                (subst (λ b. codec.decode b ≡ ok msg) (sym carried) decoded) written,
            read_response-finished json codec registry t bytes answer r carries reread responds,
            responds,
          )
    ]
