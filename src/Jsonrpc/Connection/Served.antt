-- ===== src/Jsonrpc/Connection/Served.antt =====
-- The steps of `Serve` and of the handlers keep the routing of answers.
use vipnode.Base.{ℕ, ◌≡◌, refl, Option, none, some, List, ◌==◌, if_keeps}
use vipnode.Base.Exec.{Result, ok, err}
use vipnode.Clock.{Time}
use vipnode.Jsonrpc.{get_pending_chan}
use vipnode.Jsonrpc.Server.{Json, Message, Request}
use vipnode.Jsonrpc.Connection.{
  Serving, reading, sending, stopped, Connection, put, key_of, route, serve_message, send_to,
  send_message, handle_request,
}
use vipnode.Jsonrpc.Connection.Routed.{
  Owners, get_pending_chan-Found, ServingOk, ChanOk, Routed, IsRouted, Routed-elsewhere,
  put_chan-Routed, put_serving-Routed, put_remote-Routed,
}

module _ {S J : Type 0} (json : Json J) (Seen : Message J → Type 0) where
  route-Routed :
      (now : Time) (msg : Message J) (req : Option (Request J)) (o : Owners) (x : Connection S J)
      → Seen msg
      → msg.request ≡ req
      → Routed json Seen o x
      → (o' : Owners) × Routed json Seen o' (route json now msg req x)
  unfolding route
  route-Routed now msg (some r) o x seen e inv =
      (o, Routed-elsewhere json Seen o x x.last_id _ x.receivers x.sent inv)
  route-Routed now msg none o x seen e inv =
      let key = key_of json msg in
      let (o', g, own, chan) = get_pending_chan-Found o now key x.remote inv.pending_ok in
      let made = get_pending_chan now key x.remote in
      if_keeps (λ (y : Connection S J). (o : Owners) × Routed json Seen o y) (key == "") x
        (record x { remote = made.1; serving = sending made.0 msg }) (λ _. (o, inv))
        (λ _. (
          o',
          put_serving-Routed json Seen o' (record x { remote = made.1 }) (sending made.0 msg)
              (seen, e, chan) (put_remote-Routed json Seen o o' x made.1 g own inv),
        ))

  pub serve_message-Routed :
      (now : Time) (answer : Result (Message J)) (at : Serving J) (o : Owners) (x : Connection S J)
      → ((msg : Message J) → answer ≡ ok msg → Seen msg)
      → Routed json Seen o x
      → IsRouted json Seen (serve_message json now answer at x)
  unfolding serve_message
  serve_message-Routed now (ok msg) reading o x seen inv =
      route-Routed now msg msg.request o x (seen msg refl) refl inv
  serve_message-Routed now (err e) reading o x seen inv =
      (o, put_serving-Routed json Seen o x (stopped e) tt inv)
  serve_message-Routed now answer (sending _ _) o x seen inv = tt
  serve_message-Routed now answer (stopped _) o x seen inv = tt

  send_to-Routed :
      (o : Owners) (c : ℕ) (msg : Message J) (held : Option (Message J)) (x : Connection S J)
      → ChanOk json Seen o c (some msg)
      → Routed json Seen o x
      → IsRouted json Seen (send_to c msg held x)
  unfolding send_to
  send_to-Routed o c msg none x h inv = (
    o,
    put_serving-Routed json Seen o (record x { chans = put c (some msg) x.chans }) reading tt
        (put_chan-Routed json Seen o x c (some msg) h inv),
  )
  send_to-Routed o c msg (some m) x h inv = tt

  pub send_message-Routed :
      (o : Owners) (at : Serving J) (x : Connection S J)
      → ServingOk json Seen o at
      → Routed json Seen o x
      → IsRouted json Seen (send_message at x)
  unfolding send_message
  send_message-Routed o reading x h inv = tt
  send_message-Routed o (sending c msg) x h inv = send_to-Routed o c msg (x.chans c) x h inv
  send_message-Routed o (stopped e) x h inv = tt

  pub handle_request-Routed :
      (handler : Message J → S → Message J × S) (result : Result (Unit {0}))
      (picked : Option (Message J × List (Message J))) (o : Owners) (x : Connection S J)
      → Routed json Seen o x
      → IsRouted json Seen (handle_request handler result picked x)
  unfolding handle_request
  handle_request-Routed handler result none o x inv = tt
  handle_request-Routed handler result (some (msg, rest)) o x inv =
      (o, Routed-elsewhere json Seen o x x.last_id rest _ _ inv)
