-- ===== src/Jsonrpc/Connection/Blocked.antt =====
-- Two answers with an ID that no call of the client has.
use vipnode.Base.{ℕ, ◌≡◌, refl, sym, ◌∙◌, subst, none, some, List, [], ◌∷◌, ◌≢◌}
use vipnode.Base.Exec.{ok}
use vipnode.Clock.{Time}
use vipnode.Jsonrpc.{get_pending_chan}
use vipnode.Jsonrpc.Server.{Json, Message}
use vipnode.Jsonrpc.Connection.{
  reading, sending, Connection, Event, read, send, put, key_of, run, new_connection,
}
use vipnode.Jsonrpc.Connection.Routed.{IsRouted}
use vipnode.Jsonrpc.Connection.Answers.{new_connection-Routed}
use vipnode.Jsonrpc.Connection.Progress.{
  one_waits, get_pending_chan-first, get_pending_chan-again, step-answer, step-send, run-step,
}
use vipnode.Jsonrpc.Connection.Answers.{run-Routed}
use vipnode.Jsonrpc.Connection.Stuck.{IsNotClientKey, AnyMessage, IsStuck, run-Stuck}

module _ {S J : Type 0} (json : Json J) (handler : Message J → S → Message J × S) (discard : ℕ)
    (s : S) (a b : Message J) (t u : Time) (plain_a : a.request ≡ none) (plain_b : b.request ≡ none)
    (same : key_of json a ≡ key_of json b) (nonempty : key_of json b ≢ "") where
  abbrev blocked_by : ℕ → Connection S J
  blocked_by limit =
      let x : Connection S J = new_connection limit discard s in
      record x {
        remote = one_waits limit discard (key_of json a) t;
        chans = put 0 (some a) (λ _. none);
        serving = sending 0 b;
      }

  run-two_answers :
      (limit : ℕ) (es : List (Event J))
      → limit ≢ 1
      → run json handler
          (read t (ok a) ∷ send ∷ read u (ok b) ∷ es)
          (new_connection limit discard s)
        ≡ run json handler es (blocked_by limit)
  run-two_answers limit es many =
      let x0 : Connection S J = new_connection limit discard s in
      let r = one_waits limit discard (key_of json a) t in
      let x1 = record x0 { remote = r; serving = sending 0 a } in
      let x2 = record x1 { chans = put 0 (some a) x0.chans; serving = reading } in
      run-step json handler (read t (ok a)) (send ∷ read u (ok b) ∷ es) x0 x1 (
        step-answer json handler t a x0 0 r refl plain_a (λ e. nonempty (sym same ∙ e))
          (get_pending_chan-first limit discard (key_of json a) t))
      ∙ run-step json handler send (read u (ok b) ∷ es) x1 x2
          (step-send json handler 0 a x1 refl refl)
      ∙ run-step json handler (read u (ok b)) es x2 (blocked_by limit) (
          step-answer json handler u b x2 0 r refl plain_b nonempty (
            subst (λ k. get_pending_chan u k r ≡ (0, r)) same
              (get_pending_chan-again limit discard (key_of json a) t u many)))

-- On a new connection that may hold more than one waiting call, two answers in a row with one ID that is not
-- empty and that no request of the client has: from then on `Serve` waits to pass on the second one and
-- reads nothing more, whatever the calls and the handlers do.
pub two_answers_block :
    {S J : Type 0} (json : Json J) (handler : Message J → S → Message J × S) (limit discard : ℕ)
    (s : S) (a b : Message J) (t u : Time) (es : List (Event J)) (x : Connection S J)
    → limit ≢ 1
    → a.request ≡ none
    → b.request ≡ none
    → key_of json a ≡ key_of json b
    → key_of json b ≢ ""
    → IsNotClientKey json (key_of json b)
    → run json handler (read t (ok a) ∷ send ∷ read u (ok b) ∷ es) (new_connection limit discard s)
      ≡ some x
    → x.serving ≡ sending 0 b
unfolding run
two_answers_block json handler limit discard s a b t u es x many plain_a plain_b same nonempty
      foreign ran =
    let ended =
      run-two_answers json handler discard s a b t u plain_a plain_b same nonempty limit es many in
    let begun = blocked_by json handler discard s a b t u plain_a plain_b same nonempty limit in
    let first : List (Event _) = read t (ok a) ∷ send ∷ read u (ok b) ∷ [] in
    let (o, inv) =
      subst (IsRouted json AnyMessage)
        (run-two_answers json handler discard s a b t u plain_a plain_b same nonempty limit [] many)
        (run-Routed json handler AnyMessage first _ _ ((λ m e. tt), (tt, ((λ m e. tt), tt)))
          (new_connection-Routed json handler AnyMessage limit discard s)) in
    let stuck = subst (IsStuck json 0 a b) (sym ended ∙ ran) (
      run-Stuck json handler 0 a b foreign es o begun inv
        (record { blocked = refl; full = refl; free = λ n. tt })) in
    stuck.blocked
