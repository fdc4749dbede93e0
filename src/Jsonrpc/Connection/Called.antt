-- ===== src/Jsonrpc/Connection/Called.antt =====
-- The steps of a call keep the routing of answers.
use vipnode.Base.{ℕ, ◌≡◌, refl, sym, ◌∙◌, String, Option, none, some, List}
use vipnode.Base.Exec.{Result, ok, err, Error}
use vipnode.Dict.{remove}
use vipnode.Clock.{Time}
use vipnode.Jsonrpc.{get_pending_chan}
use vipnode.Jsonrpc.Server.{Json, Message, client_request, outcome}
use vipnode.Jsonrpc.Connection.{
  Calling, idle, writing, written, waiting, received, returned, Connection, put, key_of,
  after_request, start_call, after_write, write_request, start_wait, take_from, take_answer,
  delete_pending, cancel_call, keep_written,
}
use vipnode.Jsonrpc.Connection.Routed.{
  Owners, Owned, get_pending_chan-Found, remove-PendingOwned, ChanOk, CallOk, Routed, IsRouted,
  Routed-elsewhere, put_call-Routed, put_chan-Routed, put_remote-Routed,
}

module _ {J : Type 0} (json : Json J) (Seen : Message J → Type 0) where
  after_request-CallOk :
      (o : Owners) (made : Result (Message J)) → CallOk json Seen o (after_request made)
  after_request-CallOk o (ok req) = tt
  after_request-CallOk o (err e) = tt

  after_write-CallOk :
      (o : Owners) (req : Message J) (result : Result (Unit {0}))
      → CallOk json Seen o (after_write req result)
  after_write-CallOk o req (ok _) = tt
  after_write-CallOk o req (err e) = tt

  outcome-CallOk :
      (o : Owners) (req msg : Message J) (result : Result (Option J))
      → outcome json msg.response ≡ result
      → CallOk json Seen o (received req msg)
      → CallOk json Seen o (returned (some req) result)
  outcome-CallOk o req msg (ok v) e h = (msg, h, e)
  outcome-CallOk o req msg (err x) e h = tt

module _ {S J : Type 0} (json : Json J) (Seen : Message J → Type 0) where
  pub start_call-Routed :
      (n : ℕ) (method : String) (params : List J) (at : Calling J) (o : Owners) (x : Connection S J)
      → Routed json Seen o x
      → IsRouted json Seen (start_call json n method params at x)
  unfolding start_call
  start_call-Routed n method params idle o x inv =
      let (made, id) = client_request json method params x.last_id in
      (
        o,
        put_call-Routed json Seen o (record x { last_id = id }) n (after_request made)
            (after_request-CallOk json Seen o made)
            (Routed-elsewhere json Seen o x id x.handling x.receivers x.sent inv),
      )
  start_call-Routed n method params _ o x inv = tt

  pub write_request-Routed :
      (n : ℕ) (result : Result (Unit {0})) (at : Calling J) (o : Owners) (x : Connection S J)
      → Routed json Seen o x
      → IsRouted json Seen (write_request n result at x)
  unfolding write_request
  write_request-Routed n result idle o x inv = tt
  write_request-Routed n result (writing req) o x inv =
      let sent = keep_written result req x.sent in
      (
        o,
        put_call-Routed json Seen o (record x { sent = sent }) n (after_write req result)
            (after_write-CallOk json Seen o req result)
            (Routed-elsewhere json Seen o x x.last_id x.handling x.receivers sent inv),
      )
  write_request-Routed n result _ o x inv = tt

  pub start_wait-Routed :
      (n : ℕ) (now : Time) (at : Calling J) (o : Owners) (x : Connection S J)
      → Routed json Seen o x
      → IsRouted json Seen (start_wait json n now at x)
  unfolding start_wait
  start_wait-Routed n now idle o x inv = tt
  start_wait-Routed n now (written req) o x inv =
      let (o', g, own, chan) =
        get_pending_chan-Found o now (key_of json req) x.remote inv.pending_ok in
      let made = get_pending_chan now (key_of json req) x.remote in
      (
        o',
        put_call-Routed json Seen o' (record x { remote = made.1 }) n (waiting req made.0) chan
            (put_remote-Routed json Seen o o' x made.1 g own inv),
      )
  start_wait-Routed n now _ o x inv = tt

  take_from-Routed :
      (n : ℕ) (req : Message J) (c : ℕ) (held : Option (Message J)) (o : Owners)
      (x : Connection S J)
      → Owned o c (key_of json req)
      → ChanOk json Seen o c held
      → Routed json Seen o x
      → IsRouted json Seen (take_from n req c held x)
  unfolding take_from
  take_from-Routed n req c none o x own h inv = tt
  take_from-Routed n req c (some msg) o x own (seen, plain, has) inv = (
    o,
    put_call-Routed json Seen o (record x { chans = put c none x.chans }) n (received req msg)
        (seen, plain, sym has.1 ∙ own.1) (put_chan-Routed json Seen o x c none tt inv),
  )

  pub take_answer-Routed :
      (n : ℕ) (at : Calling J) (o : Owners) (x : Connection S J)
      → CallOk json Seen o at
      → Routed json Seen o x
      → IsRouted json Seen (take_answer n at x)
  unfolding take_answer
  take_answer-Routed n idle o x h inv = tt
  take_answer-Routed n (waiting req c) o x h inv =
      take_from-Routed n req c (x.chans c) o x h (inv.chans_ok c) inv
  take_answer-Routed n _ o x h inv = tt

  pub delete_pending-Routed :
      (n : ℕ) (at : Calling J) (o : Owners) (x : Connection S J)
      → CallOk json Seen o at
      → Routed json Seen o x
      → IsRouted json Seen (delete_pending json n at x)
  unfolding delete_pending
  delete_pending-Routed n idle o x h inv = tt
  delete_pending-Routed n (received req msg) o x h inv =
      let r = record x.remote { pending = remove (key_of json req) x.remote.pending } in
      let result = outcome json msg.response in
      (
        o,
        put_call-Routed json Seen o (record x { remote = r }) n (returned (some req) result)
            (outcome-CallOk json Seen o req msg result refl h)
            (put_remote-Routed json Seen o o x r (λ c k own. own)
              (remove-PendingOwned o (key_of json req) x.remote inv.pending_ok) inv),
      )
  delete_pending-Routed n _ o x h inv = tt

  pub cancel_call-Routed :
      (n : ℕ) (e : Error) (at : Calling J) (o : Owners) (x : Connection S J)
      → Routed json Seen o x
      → IsRouted json Seen (cancel_call n e at x)
  unfolding cancel_call
  cancel_call-Routed n e idle o x inv = tt
  cancel_call-Routed n e (waiting req c) o x inv =
      (o, put_call-Routed json Seen o x n (returned (some req) (err e)) tt inv)
  cancel_call-Routed n e _ o x inv = tt
