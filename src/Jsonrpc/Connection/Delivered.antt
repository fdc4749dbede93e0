-- ===== src/Jsonrpc/Connection/Delivered.antt =====
-- A call gets its answer, whichever comes first, the answer or the call of `receive`.
use vipnode.Base.{
  ℕ, suc, ◌≡◌, refl, sym, ◌∙◌, subst, String, false, none, some, List, [], ◌∷◌, Option-cases, ◌⊎◌,
  ◌<◌, length, ◌≢◌, inl, inr, arith,
}
use vipnode.Base.Exec.{ok}
use vipnode.Dict.{get, set, get_self, get_removed, remove}
use vipnode.Clock.{Time}
use vipnode.Jsonrpc.{PendingMsg, Remote, get_pending_chan}
use vipnode.Jsonrpc.Server.{Json, Message, outcome}
use vipnode.Jsonrpc.Connection.{
  reading, sending, written, waiting, received, returned, Connection, Event, read, send, wait, take,
  delete, put, key_of, run, new_connection,
}
use vipnode.Jsonrpc.Connection.Routed.{Owners, ChanOk, Routed, IsRouted}
use vipnode.Jsonrpc.Connection.Answers.{new_connection-Routed}
use vipnode.Jsonrpc.{is_full}
use vipnode.Jsonrpc.Pending.{length-set}
use vipnode.Jsonrpc.Connection.Stuck.{AnyMessage}
use vipnode.Jsonrpc.Connection.Progress.{
  step-answer, step-send, step-wait, step-take, step-delete, run-step,
}
use vipnode.Jsonrpc.Connection.Answers.{All-ReadSeen, run-Routed, new_connection-Routed}

-- There is no limit, or two more calls may wait.
abbrev pub HasRoom : Remote → Type 0
HasRoom r = (r.pending_limit ≡ 0) ⊎ (suc (length r.pending) < r.pending_limit)

-- With one more waiting call.
abbrev one_more : String → Time → Remote → Remote
one_more k t r = record r {
  pending = set k (record { msg_chan = r.made_chans; timestamp = t }) r.pending;
  made_chans = suc r.made_chans;
}

room :
    (r : Remote) → (r.pending_limit ≡ 0) ⊎ (length r.pending < r.pending_limit) → is_full r ≡ false
room r h = ground arith

get_pending_chan-new :
    (k : String) (t : Time) (r : Remote)
    → HasRoom r
    → get k r.pending ≡ none
    → get_pending_chan t k r ≡ (r.made_chans, one_more k t r)
unfolding get_pending_chan
get_pending_chan-new k t r h absent = ground (arith, room r (ground (arith, h)), absent)

get_pending_chan-same :
    (k : String) (t u : Time) (r : Remote)
    → HasRoom r
    → get_pending_chan u k (one_more k t r) ≡ (r.made_chans, one_more k t r)
unfolding get_pending_chan
get_pending_chan-same k t u r h =
    let v : PendingMsg = record { msg_chan = r.made_chans; timestamp = t } in
    ground (
      arith,
      room (one_more k t r) (ground (arith, h, length-set k v r.pending)),
      get_self k v r.pending,
    )

put_self : {A : Type 0} (n : ℕ) (x : A) (f : ℕ → A) → put n x f n ≡ x
put_self n x f = ground arith

-- The channel that is made next holds nothing.
next_chan-empty :
    {S J : Type 0} (json : Json J) (o : Owners) (x : Connection S J)
    → Routed json AnyMessage o x
    → x.chans x.remote.made_chans ≡ none
next_chan-empty json o x inv = elim (Option-cases (x.chans x.remote.made_chans)) [
  | inl e ↦ e
  | inr (msg, e) ↦
      let (_, _, own) =
        subst (ChanOk json AnyMessage o x.remote.made_chans) e (inv.chans_ok x.remote.made_chans) in
      absurd (omega (arith, own.0, inv.pending_ok.0))
]

module _ {S J : Type 0} (json : Json J) (handler : Message J → S → Message J × S) (n : ℕ)
    (req msg : Message J) where
  -- What a run of the events leads to.
  abbrev pub Delivers : List (Event J) → Connection S J → Type 0
  Delivers es x =
      (y : Connection S J) × (run json handler es x ≡ some y)
      × (y.calls n ≡ returned (some req) (outcome json msg.response))
      × (get (key_of json req) y.remote.pending ≡ none)
      × (y.serving ≡ reading)

  module _ (t u : Time) (x : Connection S J) (ready : x.calls n ≡ written req)
      (idle : x.serving ≡ reading) (h : HasRoom x.remote)
      (absent : get (key_of json req) x.remote.pending ≡ none)
      (empty : x.chans x.remote.made_chans ≡ none) (plain : msg.request ≡ none)
      (same : key_of json msg ≡ key_of json req) (nonempty : key_of json msg ≢ "") where
    abbrev waits_first : List (Event J)
    waits_first = wait n t ∷ read u (ok msg) ∷ send ∷ take n ∷ delete n ∷ []

    abbrev reads_first : List (Event J)
    reads_first = read t (ok msg) ∷ send ∷ wait n u ∷ take n ∷ delete n ∷ []

    abbrev c : ℕ
    c = x.remote.made_chans

    -- Both orders, from where the answer lies in the channel on which the call waits.
    abbrev met : Connection S J
    met = record x {
      remote = one_more (key_of json req) t x.remote;
      chans = put c (some msg) x.chans;
      serving = reading;
      calls = put n (waiting req c) x.calls;
    }

    run-met : Delivers (take n ∷ delete n ∷ []) met
    unfolding run
    run-met =
        let taken = record met {
          chans = put c none met.chans;
          calls = put n (received req msg) met.calls;
        } in
        let done = record taken {
          remote = record taken.remote { pending = remove (key_of json req) taken.remote.pending };
          calls = put n (returned (some req) (outcome json msg.response)) taken.calls;
        } in
        (
          done,
          run-step json handler (take n) (delete n ∷ []) met taken (
                step-take json handler n req msg c met (put_self n (waiting req c) x.calls)
                  (put_self c (some msg) x.chans))
              ∙ run-step json handler (delete n) [] taken done (
                  step-delete json handler n req msg taken
                    (put_self n (received req msg) met.calls)),
          put_self n (returned (some req) (outcome json msg.response)) taken.calls,
          get_removed (key_of json req) taken.remote.pending,
          refl,
        )

    follows :
        (es : List (Event J)) (y : Connection S J)
        → run json handler es y ≡ run json handler (take n ∷ delete n ∷ []) met
        → Delivers es y
    follows es y e = let (z, ran, back, gone, ready) = run-met in (z, e ∙ ran, back, gone, ready)

    waits : Delivers waits_first x
    waits =
        let r = one_more (key_of json req) t x.remote in
        let x1 = record x { remote = r; calls = put n (waiting req c) x.calls } in
        let x2 = record x1 { serving = sending c msg } in
        follows waits_first x (
          run-step json handler (wait n t) (read u (ok msg) ∷ send ∷ take n ∷ delete n ∷ []) x x1 (
            step-wait json handler n t req x c r ready
              (get_pending_chan-new (key_of json req) t x.remote h absent))
          ∙ run-step json handler (read u (ok msg)) (send ∷ take n ∷ delete n ∷ []) x1 x2 (
              step-answer json handler u msg x1 c r idle plain nonempty (
                subst (λ k. get_pending_chan u k r ≡ (c, r)) (sym same)
                  (get_pending_chan-same (key_of json req) t u x.remote h)))
          ∙ run-step json handler send (take n ∷ delete n ∷ []) x2 met
              (step-send json handler c msg x2 refl empty))

    reads : Delivers reads_first x
    reads =
        let r = one_more (key_of json req) t x.remote in
        let x1 = record x { remote = r; serving = sending c msg } in
        let x2 = record x1 { chans = put c (some msg) x.chans; serving = reading } in
        follows reads_first x (
          run-step json handler (read t (ok msg)) (send ∷ wait n u ∷ take n ∷ delete n ∷ []) x x1 (
            step-answer json handler t msg x c r idle plain nonempty (
              subst (λ k. get_pending_chan t k x.remote ≡ (c, r)) (sym same)
                (get_pending_chan-new (key_of json req) t x.remote h absent)))
          ∙ run-step json handler send (wait n u ∷ take n ∷ delete n ∷ []) x1 x2
              (step-send json handler c msg x1 refl empty)
          ∙ run-step json handler (wait n u) (take n ∷ delete n ∷ []) x2 met (
              step-wait json handler n u req x2 c r ready
                (get_pending_chan-same (key_of json req) t u x.remote h)))

-- In every state that a new connection can reach, in which `Serve` is ready to read, a call has written
-- its request, no entry waits for its ID and there is room for two more entries: the answer that `Serve`
-- reads next makes the call return what it holds, and its entry is gone, when the call
-- waits before the answer is read as well as when it waits after the answer was passed on.
pub answer_delivered :
    {S J : Type 0} (json : Json J) (handler : Message J → S → Message J × S) (limit discard : ℕ)
    (s : S) (es : List (Event J)) (x : Connection S J) (n : ℕ) (req msg : Message J) (t u : Time)
    → run json handler es (new_connection limit discard s) ≡ some x
    → x.calls n ≡ written req
    → x.serving ≡ reading
    → HasRoom x.remote
    → get (key_of json req) x.remote.pending ≡ none
    → msg.request ≡ none
    → key_of json msg ≡ key_of json req
    → key_of json msg ≢ ""
    → Delivers json handler n req msg (wait n t ∷ read u (ok msg) ∷ send ∷ take n ∷ delete n ∷ []) x
      × Delivers json handler n req msg
          (read t (ok msg) ∷ send ∷ wait n u ∷ take n ∷ delete n ∷ [])
          x
answer_delivered json handler limit discard s es x n req msg t u ran ready at_read h absent plain
      same nonempty =
    let (o, inv) = subst (IsRouted json AnyMessage) ran (
      run-Routed json handler AnyMessage es _ _ (All-ReadSeen AnyMessage es (λ m k. tt))
        (new_connection-Routed json handler AnyMessage limit discard s)) in
    let empty = next_chan-empty json o x inv in
    (
      waits json handler n req msg t u x ready at_read h absent empty plain same nonempty,
      reads json handler n req msg t u x ready at_read h absent empty plain same nonempty,
    )
