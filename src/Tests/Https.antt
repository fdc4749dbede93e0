-- ===== src/Tests/Https.antt =====
-- A call over HTTP, with messages as bodies.
use vipnode.Base.{
  ap, sym, ◌∙◌, ℕ, List, ◌∷◌, ◌≡◌, refl, true, false, String, Option, none, some, [],
}
use vipnode.Commands.Server.{has_suffix}
use vipnode.Base.Exec.{Result, ok, err, rpc_error}
use vipnode.Int.{◌+ℤ◌, pos, negsuc}
use vipnode.Jsonrpc.Server.{Message, Method, Context, ctx_service, local_call, register, next_id}
use vipnode.Jsonrpc.Errors.{internal_error}
use vipnode.Dict.{Dict, get, set}
use vipnode.Jsonrpc.Http.{Codec, Transport, http_call, serve_http}
use vipnode.Jsonrpc.Http.Local.{IgnoresService, TransportFaithful, loopback, http_call-local_call}
use vipnode.Tests.Servers.{json, registry}

abbrev blank : Message String
blank = record { id = ""; request = none; response = none }

abbrev codec : Codec String (Message String)
codec = record {
  encode = λ msg. ok msg;
  decode = λ body. ok body;
  limited = λ n body. body;
  text = λ t. blank;
  show_status = λ n. "status";
}

abbrev body_of : Option (Message String) → Message String
body_of none = blank
body_of (some b) = b

abbrev transport : Transport (Message String)
transport = record {
  new_request = λ method endpoint body.
      ok (record { method = method; content_length = pos 2; raw_query = ""; body = body });
  finished = λ w. record { status = w.status; content_length = negsuc 0; body = body_of w.bytes };
}

transport-TransportFaithful : TransportFaithful transport
transport-TransportFaithful = record {
  requested = λ endpoint body. (_, refl, refl, refl);
  status_kept = λ w. refl;
  body_kept = λ w bytes e. λ i. body_of (e i);
}

abbrev or_count : Option (Method ℕ String) → Context → List String → ℕ → Result (Option String) × ℕ
or_count none ctx args s = (ok none, s)
or_count (some m) ctx args s = m.call ctx args s

count-IgnoresService : IgnoresService "local" registry "test_count"
unfolding get register set
count-IgnoresService m found args s =
    ap (λ o. or_count o (some "local") args s) (sym found) ∙ ap (λ o. or_count o none args s) found

http_call-local_call_example :
    http_call json codec transport
      (loopback json codec transport registry)
      "http://pool"
      0
      "test_count"
      []
      (4, pos 0)
    ≡ local_call json "local" registry "test_count" [] (4, pos 0)
http_call-local_call_example =
    http_call-local_call json codec transport registry "local" "http://pool" "test_count" [] 4
      (pos 0) count-IgnoresService (λ msg made. ((msg, refl, refl), (_, refl, refl)))
      transport-TransportFaithful

-- A method that asks for the service of its caller
abbrev who : Method ℕ String
who = record {
  parse_arguments = λ p. ok [];
  call =
      λ ctx args n. elim (ctx_service ctx) [ ok name ↦ (ok (some name), n) | err e ↦ (err e, n) ];
}

abbrev asking : Dict (Method ℕ String)
asking = ("test_who", who) ∷ []

-- It answers a local call, and fails over HTTP.
who_local : (local_call json "local" asking "test_who" [] (4, pos 0)).0 ≡ ok (some "local")
unfolding local_call get next_id ◌+ℤ◌
who_local = refl

who_http :
    (http_call json codec transport
      (loopback json codec transport asking)
      "http://pool"
      0
      "test_who"
      []
      (4, pos 0)).0
    ≡ err (rpc_error internal_error "error")
unfolding http_call serve_http get next_id ◌+ℤ◌
who_http = refl

health_path : has_suffix "/api/health" "/health" ≡ true
health_path = refl

other_path : has_suffix "/healthy" "/health" ≡ false
other_path = refl
