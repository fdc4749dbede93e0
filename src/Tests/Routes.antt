-- ===== src/Tests/Routes.antt =====
-- A connection with one call, in both orders, and one with two answers that nobody asked for.
use mathlib.Core.List.{Memᴰ}
use vipnode.Base.{ℕ, ◌≡◌, refl, inr, String, none, some, List, [], ◌∷◌, arith, eq_iff}
use vipnode.Base.Exec.{ok}
use vipnode.Int.{pos, ◌+ℤ◌}
use vipnode.Dict.{get, set, remove}
use vipnode.Jsonrpc.{get_pending_chan}
use vipnode.Jsonrpc.Server.{Message, handle, client_request, next_id, outcome, unmarshal_result}
use vipnode.Jsonrpc.Connection.{
  Connection, Event, read, send, begin, write, wait, take, delete, returned, written, reading,
  sending, step, run, serve_message, route, send_message, send_to, start_call, write_request,
  start_wait, take_answer, take_from, delete_pending, new_connection, key_of,
}
use vipnode.Jsonrpc.Connection.Answers.{messages_read, own_answer}
use vipnode.Jsonrpc.Connection.Stuck.{IsNotClientKey}
use vipnode.Jsonrpc.Connection.Blocked.{two_answers_block}
use vipnode.Jsonrpc.Connection.Delivered.{Delivers, answer_delivered}
use vipnode.Tests.Servers.{json, registry}

abbrev handler : Message String → ℕ → Message String × ℕ
handler = handle json (some "remote") registry

abbrev answer : String → Message String
answer id = record {
  id = id;
  request = none;
  response = some (record { result = some "7"; error = none });
}

abbrev request : Message String
request = record {
  id = "1";
  request = some (record { method = "test_count"; params = "[]" });
  response = none;
}

abbrev asked : List (Event String)
asked = begin 0 "test_count" [] ∷ write 0 (ok tt) ∷ []

abbrev call : List (Event String)
call =
    begin 0 "test_count" []
    ∷ write 0 (ok tt)
    ∷ wait 0 (pos 10)
    ∷ read (pos 11) (ok (answer "1"))
    ∷ send
    ∷ take 0
    ∷ delete 0
    ∷ []

after_call :
    (x : Connection ℕ String) × (run json handler call (new_connection 50 10 4) ≡ some x)
    × (x.calls 0 ≡ returned (some request) (ok (some "7")))
unfolding run step serve_message route send_message send_to start_call write_request start_wait
    take_answer take_from delete_pending client_request next_id ◌+ℤ◌ get_pending_chan get set remove
    unmarshal_result
after_call = (_, refl, refl)

own_answer_example :
    (msg : Message String) × Memᴰ msg (messages_read call)
    × (msg.request ≡ none)
    × (key_of json msg ≡ "1")
    × (outcome json msg.response ≡ ok (some "7"))
own_answer_example =
    own_answer json handler 50 10 4 call after_call.0 0 request (some "7") after_call.1 after_call.2

foreign_x : IsNotClientKey json "x"
foreign_x i id e k = ground (arith, e, k, eq_iff "1" "x")

blocked :
    (x : Connection ℕ String) × (run json handler
        (read (pos 10) (ok (answer "x")) ∷ send ∷ read (pos 11) (ok (answer "x")) ∷ asked)
        (new_connection 50 10 4)
      ≡ some x)
unfolding run step serve_message route send_message send_to start_call write_request client_request
    next_id ◌+ℤ◌ get_pending_chan get set
blocked = (_, refl)

two_answers_block_example : blocked.0.serving ≡ sending 0 (answer "x")
two_answers_block_example =
    two_answers_block json handler 50 10 4 (answer "x") (answer "x") (pos 10) (pos 11) asked
      blocked.0 (omega arith) refl refl refl (λ e. ground (arith, e, eq_iff "x" "")) foreign_x
      blocked.1

waiting_call :
    (x : Connection ℕ String) × (run json handler asked (new_connection 50 10 4) ≡ some x)
    × (x.calls 0 ≡ written request)
    × (x.serving ≡ reading)
    × (x.remote ≡ record { pending_limit = 50; pending_discard = 10; pending = []; made_chans = 0 })
unfolding run step start_call write_request client_request next_id ◌+ℤ◌
waiting_call = (_, refl, refl, refl, refl)

answer_delivered_example :
    Delivers json handler 0 request
      (answer "1")
      (wait 0 (pos 10) ∷ read (pos 11) (ok (answer "1")) ∷ send ∷ take 0 ∷ delete 0 ∷ [])
      waiting_call.0
    × Delivers json handler 0 request
        (answer "1")
        (read (pos 10) (ok (answer "1")) ∷ send ∷ wait 0 (pos 11) ∷ take 0 ∷ delete 0 ∷ [])
        waiting_call.0
unfolding get
answer_delivered_example =
    let (x, ran, ready, idle_serve, at) = waiting_call in
    answer_delivered json handler 50 10 4 asked waiting_call.0 0 request (answer "1") (pos 10)
      (pos 11) ran ready idle_serve (rw at (inr (omega arith))) (rw at refl) refl refl
      (λ e. ground (arith, e, eq_iff "1" ""))
