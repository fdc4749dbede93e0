-- ===== src/Jsonrpc/Connection/Progress.antt =====
-- The steps of a connection that can be taken, and where they lead.
use vipnode.Base.{
  ℕ, ◌≡◌, refl, sym, ap, subst, String, Option, none, some, List, [], ◌∷◌, ne→==, ◌≢◌, eq_refl,
  arith,
}
use vipnode.Base.Exec.{ok}
use vipnode.Dict.{get, set, remove}
use vipnode.Clock.{Time}
use vipnode.Jsonrpc.{
  Remote, get_pending_chan, clean_pending, pending_oldest, sort, items, delete_items,
}
use vipnode.Jsonrpc.Server.{Json, Message, outcome}
use vipnode.Jsonrpc.Connection.{
  reading, sending, written, waiting, received, returned, Connection, Event, read, send, wait, take,
  delete, put, key_of, route, serve_message, send_to, send_message, start_wait, take_from,
  take_answer, delete_pending, step, run,
}

-- The waiting calls of a connection with one of them.
abbrev pub one_waits : ℕ → ℕ → String → Time → Remote
one_waits limit discard k t = record {
  pending_limit = limit;
  pending_discard = discard;
  pending = (k, record { msg_chan = 0; timestamp = t }) ∷ [];
  made_chans = 1;
}

pub get_pending_chan-first :
    (limit discard : ℕ) (k : String) (t : Time)
    → get_pending_chan t k
        (record { pending_limit = limit; pending_discard = discard; pending = []; made_chans = 0 })
      ≡ (0, one_waits limit discard k t)
unfolding get_pending_chan get set clean_pending pending_oldest sort items delete_items
get_pending_chan-first limit discard k t = ground arith

pub get_pending_chan-again :
    (limit discard : ℕ) (k : String) (t u : Time)
    → limit ≢ 1
    → get_pending_chan u k (one_waits limit discard k t) ≡ (0, one_waits limit discard k t)
unfolding get_pending_chan get
get_pending_chan-again limit discard k t u many = ground (arith, eq_refl k)

module _ {S J : Type 0} (json : Json J) (handler : Message J → S → Message J × S) where
  route-answer :
      (now : Time) (msg : Message J) (x : Connection S J) (c : ℕ) (r : Remote)
      → key_of json msg ≢ ""
      → get_pending_chan now (key_of json msg) x.remote ≡ (c, r)
      → route json now msg none x ≡ record x { remote = r; serving = sending c msg }
  unfolding route
  route-answer now msg x c r nonempty found = rw (ne→== (key_of json msg) "" nonempty, found) refl

  -- `Serve` reads an answer.
  pub step-answer :
      (now : Time) (msg : Message J) (x : Connection S J) (c : ℕ) (r : Remote)
      → x.serving ≡ reading
      → msg.request ≡ none
      → key_of json msg ≢ ""
      → get_pending_chan now (key_of json msg) x.remote ≡ (c, r)
      → step json handler (read now (ok msg)) x
        ≡ some (record x { remote = r; serving = sending c msg })
  unfolding step serve_message
  step-answer now msg x c r ready plain nonempty found =
      let next = record x { remote = r; serving = sending c msg } in
      subst (λ at. serve_message json now (ok msg) at x ≡ some next) (sym ready)
        (subst (λ q. ◌≡◌ {A = Option (Connection S J)} (some (route json now msg q x)) (some next))
          (sym plain) (ap some (route-answer now msg x c r nonempty found)))

  -- `Serve` passes an answer on.
  pub step-send :
      (c : ℕ) (msg : Message J) (x : Connection S J)
      → x.serving ≡ sending c msg
      → x.chans c ≡ none
      → step json handler send x
        ≡ some (record x { chans = put c (some msg) x.chans; serving = reading })
  unfolding step send_message send_to
  step-send c msg x ready room = rw (ready, room) refl

  pub step-wait :
      (n : ℕ) (now : Time) (req : Message J) (x : Connection S J) (c : ℕ) (r : Remote)
      → x.calls n ≡ written req
      → get_pending_chan now (key_of json req) x.remote ≡ (c, r)
      → step json handler (wait n now) x
        ≡ some (record x { remote = r; calls = put n (waiting req c) x.calls })
  unfolding step start_wait
  step-wait n now req x c r ready found = rw (ready, found) refl

  pub step-take :
      (n : ℕ) (req msg : Message J) (c : ℕ) (x : Connection S J)
      → x.calls n ≡ waiting req c
      → x.chans c ≡ some msg
      → step json handler (take n) x
        ≡ some (record x { chans = put c none x.chans; calls = put n (received req msg) x.calls })
  unfolding step take_answer take_from
  step-take n req msg c x ready full = rw (ready, full) refl

  pub step-delete :
      (n : ℕ) (req msg : Message J) (x : Connection S J)
      → x.calls n ≡ received req msg
      → step json handler (delete n) x
        ≡ some (record x {
          remote = record x.remote { pending = remove (key_of json req) x.remote.pending };
          calls = put n (returned (some req) (outcome json msg.response)) x.calls;
        })
  unfolding step delete_pending
  step-delete n req msg x ready = rw ready refl

  pub run-step :
      (e : Event J) (es : List (Event J)) (x y : Connection S J)
      → step json handler e x ≡ some y
      → run json handler (e ∷ es) x ≡ run json handler es y
  unfolding run
  run-step e es x y h = rw (h, run) refl
