-- ===== src/Jsonrpc/Connection/Stuck.antt =====
-- A connection whose `Serve` sends to a channel that is full and that no call will wait on.
use vipnode.Base.{
  ℕ, ◌≡◌, refl, sym, ◌∙◌, ap, subst, String, Option, none, some, List, [], ◌∷◌, option_keeps, ◌≢◌,
  arith,
}
use vipnode.Base.Exec.{Result, ok, err, Error}
use vipnode.Dict.{remove}
use vipnode.Clock.{Time}
use vipnode.Jsonrpc.{Remote, get_pending_chan}
use vipnode.Jsonrpc.Server.{Json, Message, client_request, make_request, next_id, outcome}
use vipnode.Jsonrpc.Connection.{
  sending, Calling, idle, writing, written, waiting, received, returned, Connection, Event, read,
  send, reply, begin, write, wait, take, delete, cancel, put, key_of, serve_message, send_to,
  send_message, handle_request, after_request, start_call, after_write, write_request, start_wait,
  take_from, take_answer, delete_pending, cancel_call, step, run, take_out, keep_written,
}
use vipnode.Jsonrpc.Connection.Routed.{
  Owners, Owned, ServingOk, CallOk, Routed, IsRouted, put_keeps,
}
use vipnode.Jsonrpc.Connection.Answers.{ReadSeen, step-Routed}
use vipnode.Int.{ℤ}

-- No request of a client has the key.
abbrev pub IsNotClientKey : {J : Type 0} → Json J → String → Type 0
IsNotClientKey json k = (i : ℤ) (id : _) → json.marshal_id i ≡ ok id → json.show id ≢ k

abbrev pub AnyMessage : {J : Type 0} → Message J → Type 0
AnyMessage msg = Unit

ReadSeen-any : {J : Type 0} (e : Event J) → ReadSeen AnyMessage e
ReadSeen-any (read now answer) = λ msg h. tt
ReadSeen-any _ = tt

module _ {J : Type 0} (json : Json J) (k : String) where
  abbrev pub CallFree : Calling J → Type 0
  CallFree (writing req) = key_of json req ≢ k
  CallFree (written req) = key_of json req ≢ k
  CallFree (waiting req c) = key_of json req ≢ k
  CallFree _ = Unit

  make_request-CallFree :
      (method : String) (id : Result J) (params : Result J)
      → ((text : J) → id ≡ ok text → json.show text ≢ k)
      → CallFree (after_request (make_request method id params))
  make_request-CallFree method (err e) params foreign = tt
  make_request-CallFree method (ok text) (err e) foreign = tt
  make_request-CallFree method (ok text) (ok out) foreign = foreign text refl

  after_request-CallFree :
      (method : String) (params : List J) (id : ℤ)
      → IsNotClientKey json k
      → CallFree (after_request (client_request json method params id).0)
  unfolding client_request
  after_request-CallFree method params id foreign =
      make_request-CallFree method (json.marshal_id (next_id id)) (json.marshal_params params)
        (foreign (next_id id))

  after_write-CallFree :
      (req : Message J) (result : Result (Unit {0}))
      → CallFree (writing req)
      → CallFree (after_write req result)
  after_write-CallFree req (ok _) free = free
  after_write-CallFree req (err e) free = tt

module _ {S J : Type 0} (json : Json J) (c : ℕ) (first second : Message J) where
  pub record Stuck (x : Connection S J) : Type 0 where
    pub blocked : x.serving ≡ sending c second
    pub full : x.chans c ≡ some first
    pub free : (n : ℕ) → CallFree json (key_of json second) (x.calls n)

  abbrev pub IsStuck : Option (Connection S J) → Type 0
  IsStuck none = Unit
  IsStuck (some x) = Stuck x

  put_call-Stuck :
      (x : Connection S J) (n : ℕ) (at : Calling J)
      → CallFree json (key_of json second) at
      → Stuck x
      → Stuck (record x { calls = put n at x.calls })
  put_call-Stuck x n at h stuck = record {
    blocked = stuck.blocked;
    full = stuck.full;
    free = put_keeps (λ _. CallFree json (key_of json second)) n at x.calls h stuck.free;
  }

  -- What plays no part.
  Stuck-elsewhere :
      (x : Connection S J) (r : Remote) (id : ℤ) (hs : List (Message J)) (s : S)
      (sent : List (Message J))
      → Stuck x
      → Stuck (record x { remote = r; last_id = id; handling = hs; receivers = s; sent = sent })
  Stuck-elsewhere x r id hs s sent stuck = record {
    blocked = stuck.blocked;
    full = stuck.full;
    free = stuck.free;
  }

  serve_message-Stuck :
      (now : Time) (answer : Result (Message J)) (x : Connection S J)
      → Stuck x
      → IsStuck (serve_message json now answer x.serving x)
  unfolding serve_message
  serve_message-Stuck now answer x stuck =
      subst (λ at. IsStuck (serve_message json now answer at x)) (sym stuck.blocked) tt

  send_message-Stuck : (x : Connection S J) → Stuck x → IsStuck (send_message x.serving x)
  unfolding send_message send_to
  send_message-Stuck x stuck =
      subst (λ at. IsStuck (send_message at x)) (sym stuck.blocked)
        (subst (λ held. IsStuck (send_to c second held x)) (sym stuck.full) tt)

  handle_request-Stuck :
      (handler : Message J → S → Message J × S) (result : Result (Unit {0}))
      (picked : Option (Message J × List (Message J))) (x : Connection S J)
      → Stuck x
      → IsStuck (handle_request handler result picked x)
  unfolding handle_request
  handle_request-Stuck handler result none x stuck = tt
  handle_request-Stuck handler result (some (msg, rest)) x stuck =
      Stuck-elsewhere x x.remote x.last_id rest _ _ stuck

  start_call-Stuck :
      (n : ℕ) (method : String) (params : List J) (at : Calling J) (x : Connection S J)
      → IsNotClientKey json (key_of json second)
      → Stuck x
      → IsStuck (start_call json n method params at x)
  unfolding start_call
  start_call-Stuck n method params idle x foreign stuck =
      let (made, id) = client_request json method params x.last_id in
      put_call-Stuck (record x { last_id = id }) n (after_request made)
        (after_request-CallFree json (key_of json second) method params x.last_id foreign)
        (Stuck-elsewhere x x.remote id x.handling x.receivers x.sent stuck)
  start_call-Stuck n method params _ x foreign stuck = tt

  write_request-Stuck :
      (n : ℕ) (result : Result (Unit {0})) (at : Calling J) (x : Connection S J)
      → CallFree json (key_of json second) at
      → Stuck x
      → IsStuck (write_request n result at x)
  unfolding write_request
  write_request-Stuck n result idle x free stuck = tt
  write_request-Stuck n result (writing req) x free stuck =
      let sent = keep_written result req x.sent in
      put_call-Stuck (record x { sent = sent }) n (after_write req result)
        (after_write-CallFree json (key_of json second) req result free)
        (Stuck-elsewhere x x.remote x.last_id x.handling x.receivers sent stuck)
  write_request-Stuck n result _ x free stuck = tt

  start_wait-Stuck :
      (n : ℕ) (now : Time) (at : Calling J) (x : Connection S J)
      → CallFree json (key_of json second) at
      → Stuck x
      → IsStuck (start_wait json n now at x)
  unfolding start_wait
  start_wait-Stuck n now idle x free stuck = tt
  start_wait-Stuck n now (written req) x free stuck =
      let made = get_pending_chan now (key_of json req) x.remote in
      put_call-Stuck (record x { remote = made.1 }) n (waiting req made.0) free
        (Stuck-elsewhere x made.1 x.last_id x.handling x.receivers x.sent stuck)
  start_wait-Stuck n now _ x free stuck = tt

  -- A call that takes an answer takes it from another channel.
  take_from-Stuck :
      (n : ℕ) (req : Message J) (d : ℕ) (held : Option (Message J)) (x : Connection S J)
      → d ≢ c
      → Stuck x
      → IsStuck (take_from n req d held x)
  unfolding take_from
  take_from-Stuck n req d none x other stuck = tt
  take_from-Stuck n req d (some msg) x other stuck =
      put_call-Stuck (record x { chans = put d none x.chans }) n (received req msg) tt
        (record {
          blocked = stuck.blocked;
          full = ground (arith, other, stuck.full);
          free = stuck.free;
        })

  take_answer-Stuck :
      (n : ℕ) (at : Calling J) (o : Owners) (x : Connection S J)
      → Owned o c (key_of json second)
      → CallOk json AnyMessage o at
      → CallFree json (key_of json second) at
      → Stuck x
      → IsStuck (take_answer n at x)
  unfolding take_answer
  take_answer-Stuck n idle o x own h free stuck = tt
  take_answer-Stuck n (waiting req d) o x own h free stuck =
      take_from-Stuck n req d (x.chans d) x (λ e. free (sym h.1 ∙ ap o.0 e ∙ own.1)) stuck
  take_answer-Stuck n _ o x own h free stuck = tt

  delete_pending-Stuck :
      (n : ℕ) (at : Calling J) (x : Connection S J) → Stuck x → IsStuck (delete_pending json n at x)
  unfolding delete_pending
  delete_pending-Stuck n idle x stuck = tt
  delete_pending-Stuck n (received req msg) x stuck =
      let r = record x.remote { pending = remove (key_of json req) x.remote.pending } in
      put_call-Stuck (record x { remote = r }) n (returned (some req) (outcome json msg.response))
        tt (Stuck-elsewhere x r x.last_id x.handling x.receivers x.sent stuck)
  delete_pending-Stuck n _ x stuck = tt

  cancel_call-Stuck :
      (n : ℕ) (e : Error) (at : Calling J) (x : Connection S J)
      → Stuck x
      → IsStuck (cancel_call n e at x)
  unfolding cancel_call
  cancel_call-Stuck n e idle x stuck = tt
  cancel_call-Stuck n e (waiting req d) x stuck =
      put_call-Stuck x n (returned (some req) (err e)) tt stuck
  cancel_call-Stuck n e _ x stuck = tt

module _ {S J : Type 0} (json : Json J) (handler : Message J → S → Message J × S) (c : ℕ)
    (first second : Message J) (foreign : IsNotClientKey json (key_of json second)) where
  step-Stuck :
      (e : Event J) (o : Owners) (x : Connection S J)
      → Routed json AnyMessage o x
      → Stuck json c first second x
      → IsStuck json c first second (step json handler e x)
  unfolding step
  step-Stuck (read now answer) o x inv stuck =
      serve_message-Stuck json c first second now answer x stuck
  step-Stuck send o x inv stuck = send_message-Stuck json c first second x stuck
  step-Stuck (reply n result) o x inv stuck =
      handle_request-Stuck json c first second handler result (take_out n x.handling) x stuck
  step-Stuck (begin n method params) o x inv stuck =
      start_call-Stuck json c first second n method params (x.calls n) x foreign stuck
  step-Stuck (write n result) o x inv stuck =
      write_request-Stuck json c first second n result (x.calls n) x (stuck.free n) stuck
  step-Stuck (wait n now) o x inv stuck =
      start_wait-Stuck json c first second n now (x.calls n) x (stuck.free n) stuck
  step-Stuck (take n) o x inv stuck =
      let (_, _, own) = subst (ServingOk json AnyMessage o) stuck.blocked inv.serving_ok in
      take_answer-Stuck json c first second n (x.calls n) o x own (inv.calls_ok n) (stuck.free n)
        stuck
  step-Stuck (delete n) o x inv stuck =
      delete_pending-Stuck json c first second n (x.calls n) x stuck
  step-Stuck (cancel n e) o x inv stuck =
      cancel_call-Stuck json c first second n e (x.calls n) x stuck

  pub run-Stuck :
      (es : List (Event J)) (o : Owners) (x : Connection S J)
      → Routed json AnyMessage o x
      → Stuck json c first second x
      → IsStuck json c first second (run json handler es x)
  unfolding run
  run-Stuck [] o x inv stuck = stuck
  run-Stuck (e ∷ es) o x inv stuck =
      option_keeps (IsStuck json c first second) (step json handler e x) none (run json handler es)
        (λ _. tt)
        (λ y h.
          let (o', inv') =
            subst (IsRouted json AnyMessage) h
              (step-Routed json handler AnyMessage e o x (ReadSeen-any e) inv) in
          run-Stuck es o' y inv'
            (subst (IsStuck json c first second) h (step-Stuck e o x inv stuck)))
