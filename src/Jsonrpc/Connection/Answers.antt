-- ===== src/Jsonrpc/Connection/Answers.antt =====
-- A call gets the answer to its own request, whatever else the connection carries.
use mathlib.Core.List.{Memᴰ}
use vipnode.Base.{ℕ, ◌≡◌, refl, subst, Option, none, some, List, [], ◌∷◌, option_keeps, All}
use vipnode.Base.Exec.{ok, err}
use vipnode.Dict.{get}
use vipnode.Jsonrpc.Server.{Json, Message, outcome}
use vipnode.Jsonrpc.Connection.{
  returned, Connection, Event, read, send, reply, begin, write, wait, take, delete, cancel, key_of,
  step, run, take_out, new_connection,
}
use vipnode.Jsonrpc.Connection.Routed.{Owners, CallOk, Routed, IsRouted}
use vipnode.Jsonrpc.Connection.Served.{
  serve_message-Routed, send_message-Routed, handle_request-Routed,
}
use vipnode.Jsonrpc.Connection.Called.{
  start_call-Routed, write_request-Routed, start_wait-Routed, take_answer-Routed,
  delete_pending-Routed, cancel_call-Routed,
}

-- The messages that `Serve` read.
abbrev pub messages_read : {J : Type 0} → List (Event J) → List (Message J)
messages_read [] = []
messages_read (read now (ok msg) ∷ es) = msg ∷ messages_read es
messages_read (_ ∷ es) = messages_read es

module _ {J : Type 0} (Seen : Message J → Type 0) where
  abbrev pub ReadSeen : Event J → Type 0
  ReadSeen (read now answer) = (msg : Message J) → answer ≡ ok msg → Seen msg
  ReadSeen _ = Unit

  pub All-ReadSeen :
      (es : List (Event J))
      → ((msg : Message J) → Memᴰ msg (messages_read es) → Seen msg)
      → All ReadSeen es
  All-ReadSeen [] f = tt
  All-ReadSeen (read now (ok msg) ∷ es) f =
      ((λ m e. f m (Memᴰ.head (cc))), All-ReadSeen es (λ m h. f m (Memᴰ.tail h)))
  All-ReadSeen (read now (err e) ∷ es) f = ((λ m h. cc), All-ReadSeen es f)
  All-ReadSeen (send ∷ es) f = (tt, All-ReadSeen es f)
  All-ReadSeen (reply n r ∷ es) f = (tt, All-ReadSeen es f)
  All-ReadSeen (begin n m p ∷ es) f = (tt, All-ReadSeen es f)
  All-ReadSeen (write n r ∷ es) f = (tt, All-ReadSeen es f)
  All-ReadSeen (wait n now ∷ es) f = (tt, All-ReadSeen es f)
  All-ReadSeen (take n ∷ es) f = (tt, All-ReadSeen es f)
  All-ReadSeen (delete n ∷ es) f = (tt, All-ReadSeen es f)
  All-ReadSeen (cancel n e ∷ es) f = (tt, All-ReadSeen es f)

module _ {S J : Type 0} (json : Json J) (handler : Message J → S → Message J × S)
    (Seen : Message J → Type 0) where
  pub step-Routed :
      (e : Event J) (o : Owners) (x : Connection S J)
      → ReadSeen Seen e
      → Routed json Seen o x
      → IsRouted json Seen (step json handler e x)
  unfolding step
  step-Routed (read now answer) o x seen inv =
      serve_message-Routed json Seen now answer x.serving o x seen inv
  step-Routed send o x seen inv = send_message-Routed json Seen o x.serving x inv.serving_ok inv
  step-Routed (reply n result) o x seen inv =
      handle_request-Routed json Seen handler result (take_out n x.handling) o x inv
  step-Routed (begin n method params) o x seen inv =
      start_call-Routed json Seen n method params (x.calls n) o x inv
  step-Routed (write n result) o x seen inv =
      write_request-Routed json Seen n result (x.calls n) o x inv
  step-Routed (wait n now) o x seen inv = start_wait-Routed json Seen n now (x.calls n) o x inv
  step-Routed (take n) o x seen inv =
      take_answer-Routed json Seen n (x.calls n) o x (inv.calls_ok n) inv
  step-Routed (delete n) o x seen inv =
      delete_pending-Routed json Seen n (x.calls n) o x (inv.calls_ok n) inv
  step-Routed (cancel n e) o x seen inv = cancel_call-Routed json Seen n e (x.calls n) o x inv

  pub run-Routed :
      (es : List (Event J)) (o : Owners) (x : Connection S J)
      → All (ReadSeen Seen) es
      → Routed json Seen o x
      → IsRouted json Seen (run json handler es x)
  unfolding run
  run-Routed [] o x seen inv = (o, inv)
  run-Routed (e ∷ es) o x (seen, more) inv =
      option_keeps (IsRouted json Seen) (step json handler e x) none (run json handler es) (λ _. tt)
        (λ y h.
          let (o', inv') = subst (IsRouted json Seen) h (step-Routed e o x seen inv) in
          run-Routed es o' y more inv')

  pub new_connection-Routed :
      (limit discard : ℕ) (s : S)
      → Routed json Seen ((λ _. ""), 0) (new_connection {J = J} limit discard s)
  unfolding get
  new_connection-Routed limit discard s = record {
    pending_ok = (refl, λ k p h. cc);
    serving_ok = tt;
    chans_ok = λ c. tt;
    calls_ok = λ n. tt;
  }

-- In every run from a new connection, a call that returns without an error returns what an answer
-- holds that `Serve` read, that has the ID of the request of this call and is no request itself.
pub own_answer :
    {S J : Type 0} (json : Json J) (handler : Message J → S → Message J × S) (limit discard : ℕ)
    (s : S) (es : List (Event J)) (x : Connection S J) (n : ℕ) (req : Message J) (v : Option J)
    → run json handler es (new_connection limit discard s) ≡ some x
    → x.calls n ≡ returned (some req) (ok v)
    → (msg : Message J) × Memᴰ msg (messages_read es)
      × (msg.request ≡ none)
      × (key_of json msg ≡ key_of json req)
      × (outcome json msg.response ≡ ok v)
own_answer json handler limit discard s es x n req v ran done =
    let Seen = λ (msg : Message _). Memᴰ msg (messages_read es) in
    let (o, inv) = subst (IsRouted json Seen) ran (
      run-Routed json handler Seen es _ _ (All-ReadSeen Seen es (λ m h. h))
        (new_connection-Routed json handler Seen limit discard s)) in
    let (msg, (seen, plain, key), result) = subst (CallOk json Seen o) done (inv.calls_ok n) in
    (msg, seen, plain, key, result)
