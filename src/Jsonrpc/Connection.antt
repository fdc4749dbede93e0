-- ===== src/Jsonrpc/Connection.antt =====
-- jsonrpc2/remote.go: the loop of `Serve`, the goroutines of the handlers and the calls of one
-- connection. An event is one of their steps between two waits, in whatever order they run.
pub mod Routed
pub mod Served
pub mod Called
pub mod Answers
pub mod Progress
pub mod Stuck
pub mod Blocked
pub mod Delivered
use vipnode.Base.{
  ℕ, zero, suc, String, Bool, true, false, Option, none, some, List, [], ◌∷◌, ◌++◌, ◌==◌, nat_eq,
  if◌then◌else◌,
}
use vipnode.Base.Exec.{Result, ok, err, Error}
use vipnode.Int.{ℤ, pos}
use vipnode.Dict.{Dict, remove}
use vipnode.Clock.{Time}
use vipnode.Jsonrpc.{Remote, get_pending_chan}
use vipnode.Jsonrpc.Server.{Json, Message, Request, client_request, outcome}

-- Where `Serve` is: at `ReadMessage`, at the send of a message to a channel, or returned.
pub data Serving (J : Type 0) : Type 0 where
  reading : Serving J
  sending : ℕ → Message J → Serving J
  stopped : Error → Serving J

-- Where a call is: not begun, before `WriteMessage`, before `receive`, in its `select` on a channel,
-- before the `delete`, or returned. Each carries the request that was made.
pub data Calling (J : Type 0) : Type 0 where
  idle : Calling J
  writing : Message J → Calling J
  written : Message J → Calling J
  waiting : Message J → ℕ → Calling J
  received : Message J → Message J → Calling J
  returned : Option (Message J) → Result (Option J) → Calling J

-- The last ID is that of the client. `chans` is what each channel holds, at most one message; `S` is
-- the state of the receivers; `sent` is what was written, the last first.
pub record Connection (S J : Type 0) : Type 0 where
  pub remote : Remote
  pub last_id : ℤ
  pub chans : ℕ → Option (Message J)
  pub serving : Serving J
  pub handling : List (Message J)
  pub calls : ℕ → Calling J
  pub receivers : S
  pub sent : List (Message J)

pub data Event (J : Type 0) : Type 0 where
  read : Time → Result (Message J) → Event J
  send : Event J
  reply : ℕ → Result (Unit {0}) → Event J
  begin : ℕ → String → List J → Event J
  write : ℕ → Result (Unit {0}) → Event J
  wait : ℕ → Time → Event J
  take : ℕ → Event J
  delete : ℕ → Event J
  cancel : ℕ → Error → Event J

abbrev pub put {ℓ} : {A : Type ℓ} → ℕ → A → (ℕ → A) → ℕ → A
put n x f m = if nat_eq m n then x else f m

abbrev pub keep_written :
    {J : Type 0} → Result (Unit {0}) → Message J → List (Message J) → List (Message J)
keep_written (ok _) msg sent = msg ∷ sent
keep_written (err _) msg sent = sent

-- The item at a place, and the others.
abbrev pub take_out {ℓ} : {A : Type ℓ} → ℕ → List A → Option (A × List A)
take_out n [] = none
take_out zero (x ∷ xs) = some (x, xs)
take_out (suc n) (x ∷ xs) = elim (take_out n xs) [
  | none ↦ none
  | some (y, rest) ↦ some (y, x ∷ rest)
]

abbrev pub key_of : {J : Type 0} → Json J → Message J → String
key_of json msg = json.show msg.id

module _ {J : Type 0} where
  abbrev pub after_request : Result (Message J) → Calling J
  after_request (ok req) = writing req
  after_request (err e) = returned none (err e)

  abbrev pub after_write : Message J → Result (Unit {0}) → Calling J
  after_write req (ok _) = written req
  after_write req (err e) = returned (some req) (err e)

module _ {S J : Type 0} where
  -- A channel that holds a message takes no other one.
  unfoldable pub send_to :
      ℕ → Message J → Option (Message J) → Connection S J → Option (Connection S J)
  send_to c msg none x = some (record x { chans = put c (some msg) x.chans; serving = reading })
  send_to c msg (some _) x = none

  unfoldable pub send_message : Serving J → Connection S J → Option (Connection S J)
  unfolding send_to
  send_message (sending c msg) x = send_to c msg (x.chans c) x
  send_message _ x = none

  -- `handleRequest` of one of the goroutines, whose error nobody reads. The handler is one step.
  unfoldable pub handle_request :
      (Message J → S → Message J × S)
      → Result (Unit {0})
      → Option (Message J × List (Message J))
      → Connection S J
      → Option (Connection S J)
  handle_request handler result none x = none
  handle_request handler result (some (msg, rest)) x =
      let (resp, s) = handler msg x.receivers in
      some (record x { handling = rest; receivers = s; sent = keep_written result resp x.sent })

  unfoldable pub write_request :
      ℕ → Result (Unit {0}) → Calling J → Connection S J → Option (Connection S J)
  write_request n result (writing req) x = some (record x {
    calls = put n (after_write req result) x.calls;
    sent = keep_written result req x.sent;
  })
  write_request n result _ x = none

  unfoldable pub take_from :
      ℕ → Message J → ℕ → Option (Message J) → Connection S J → Option (Connection S J)
  take_from n req c none x = none
  take_from n req c (some msg) x =
      some (record x { chans = put c none x.chans; calls = put n (received req msg) x.calls })

  unfoldable pub take_answer : ℕ → Calling J → Connection S J → Option (Connection S J)
  unfolding take_from
  take_answer n (waiting req c) x = take_from n req c (x.chans c) x
  take_answer n _ x = none

  -- `ctx.Done()`: the entry of the call stays.
  unfoldable pub cancel_call : ℕ → Error → Calling J → Connection S J → Option (Connection S J)
  cancel_call n e (waiting req c) x =
      some (record x { calls = put n (returned (some req) (err e)) x.calls })
  cancel_call n e _ x = none

module _ {S J : Type 0} (json : Json J) where
  -- What `Serve` does with a message that is read.
  unfoldable pub route : Time → Message J → Option (Request J) → Connection S J → Connection S J
  route now msg (some _) x = record x { handling = x.handling ++ (msg ∷ []) }
  route now msg none x =
      if key_of json msg == ""
      then x
      else let (c, r) = get_pending_chan now (key_of json msg) x.remote in
        record x { remote = r; serving = sending c msg }

  -- `Serve`, up to the next wait; what it is not ready for is none.
  unfoldable pub serve_message :
      Time → Result (Message J) → Serving J → Connection S J → Option (Connection S J)
  unfolding route
  serve_message now (ok msg) reading x = some (route now msg msg.request x)
  serve_message now (err e) reading x = some (record x { serving = stopped e })
  serve_message now answer (sending _ _) x = none
  serve_message now answer (stopped _) x = none

  -- `Call` up to `WriteMessage`. A connection without a client gets one, whose last ID is 0.
  unfoldable pub start_call :
      ℕ → String → List J → Calling J → Connection S J → Option (Connection S J)
  start_call n method params idle x =
      let (made, id) = client_request json method params x.last_id in
      some (record x { last_id = id; calls = put n (after_request made) x.calls })
  start_call n method params _ x = none

  -- `receive`: the channel is looked up once, before the `select`.
  unfoldable pub start_wait : ℕ → Time → Calling J → Connection S J → Option (Connection S J)
  start_wait n now (written req) x =
      let (c, r) = get_pending_chan now (key_of json req) x.remote in
      some (record x { remote = r; calls = put n (waiting req c) x.calls })
  start_wait n now _ x = none

  unfoldable pub delete_pending : ℕ → Calling J → Connection S J → Option (Connection S J)
  delete_pending n (received req msg) x = some (record x {
    remote = record x.remote { pending = remove (key_of json req) x.remote.pending };
    calls = put n (returned (some req) (outcome json msg.response)) x.calls;
  })
  delete_pending n _ x = none

module _ {S J : Type 0} (json : Json J) (handler : Message J → S → Message J × S) where
  unfoldable pub step : Event J → Connection S J → Option (Connection S J)
  unfolding serve_message send_message handle_request start_call write_request start_wait
      take_answer delete_pending cancel_call
  step (read now answer) x = serve_message json now answer x.serving x
  step send x = send_message x.serving x
  step (reply n result) x = handle_request handler result (take_out n x.handling) x
  step (begin n method params) x = start_call json n method params (x.calls n) x
  step (write n result) x = write_request n result (x.calls n) x
  step (wait n now) x = start_wait json n now (x.calls n) x
  step (take n) x = take_answer n (x.calls n) x
  step (delete n) x = delete_pending json n (x.calls n) x
  step (cancel n e) x = cancel_call n e (x.calls n) x

  -- A run; one with an event that nobody is ready for is none.
  unfoldable pub run : List (Event J) → Connection S J → Option (Connection S J)
  unfolding step
  run [] x = some x
  run (e ∷ es) x = elim (step e x) [ none ↦ none | some y ↦ run es y ]

-- A connection before its first event.
abbrev pub new_connection : {S J : Type 0} → ℕ → ℕ → S → Connection S J
new_connection limit discard s = record {
  remote = record {
    pending_limit = limit;
    pending_discard = discard;
    pending = [];
    made_chans = 0;
  };
  last_id = pos 0;
  chans = λ _. none;
  serving = reading;
  handling = [];
  calls = λ _. idle;
  receivers = s;
  sent = [];
}
