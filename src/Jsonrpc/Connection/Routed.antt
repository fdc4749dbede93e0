-- ===== src/Jsonrpc/Connection/Routed.antt =====
-- Which message a channel of a connection holds: the invariant of the routing of answers.
use vipnode.Base.{
  ℕ, suc, ◌<◌, ◌≡◌, refl, String, inl, inr, Bool-cases, subst, Option, none, some, List, [], ◌∷◌,
  ◌==◌, nat_eq, if_keeps, option_keeps, eq_iff, arith,
}
use vipnode.Base.Exec.{ok, err}
use vipnode.Dict.{Dict, get, set, remove, get-set, get-remove}
use vipnode.Int.{ℤ}
use vipnode.Clock.{Time}
use vipnode.Jsonrpc.{
  PendingMsg, PendingItem, Remote, delete_items, clean_pending, is_full, make_room, add_chan,
  get_pending_chan,
}
use vipnode.Jsonrpc.Server.{Json, Message, outcome}
use vipnode.Jsonrpc.Connection.{
  Serving, reading, sending, stopped, Calling, idle, writing, written, waiting, received, returned,
  Connection, put, key_of,
}

pub put_keeps :
    {A : Type 0} (P : ℕ → A → Type 0) (n : ℕ) (x : A) (f : ℕ → A)
    → P n x
    → ((m : ℕ) → P m (f m))
    → (m : ℕ) → P m (put n x f m)
put_keeps P n x f h k m =
    if_keeps (P m) (nat_eq m n) x (f m) (λ e. subst (λ i. P i x) (ground (arith, e)) h) (λ _. k m)

-- Whose key each channel was made for, and how many are made.
abbrev pub Owners : Type 0
Owners = (ℕ → String) × ℕ

abbrev pub Owned : Owners → ℕ → String → Type 0
Owned (owner, made) c k = (c < made) × (owner c ≡ k)

abbrev pub Grows : Owners → Owners → Type 0
Grows o o' = (c : ℕ) (k : String) → Owned o c k → Owned o' c k

abbrev pub PendingOwned : Owners → Remote → Type 0
PendingOwned o r =
    (o.1 ≡ r.made_chans)
    × ((k : String) (p : PendingMsg) → get k r.pending ≡ some p → Owned o p.msg_chan k)

get-delete_items :
    (xs : List PendingItem) (m : Dict PendingMsg) (k : String) (p : PendingMsg)
    → get k (delete_items xs m) ≡ some p
    → get k m ≡ some p
unfolding delete_items
get-delete_items [] m k p h = h
get-delete_items (x ∷ xs) m k p h =
    ground (arith, get-remove x.key k m, get-delete_items xs (remove x.key m) k p h)

make_room-PendingOwned : (o : Owners) (r : Remote) → PendingOwned o r → PendingOwned o (make_room r)
unfolding clean_pending
make_room-PendingOwned o r (made, own) =
    if_keeps (PendingOwned o) (is_full r) (clean_pending r.pending_discard r) r
      (λ _. (made, λ k p h. own k p (get-delete_items _ r.pending k p h))) (λ _. (made, own))

-- The owners with one more channel.
abbrev add_owner : Owners → String → Owners
add_owner (owner, made) key = (put made key owner, suc made)

Grows-add_owner : (o : Owners) (key : String) → Grows o (add_owner o key)
Grows-add_owner (owner, made) key c k (below, own) =
    (omega (arith, below), ground (arith, below, own))

Owned-add_owner : (o : Owners) (key : String) → Owned (add_owner o key) o.1 key
Owned-add_owner (owner, made) key = (omega arith, ground arith)

abbrev pub Found : Owners → String → ℕ × Remote → Type 0
Found o key (c, r) = (o' : Owners) × Grows o o' × PendingOwned o' r × Owned o' c key

set-Owned :
    (o : Owners) (now : Time) (key : String) (m : Dict PendingMsg)
    → ((k : String) (p : PendingMsg) → get k m ≡ some p → Owned o p.msg_chan k)
    → (k : String) (p : PendingMsg)
    → get k (set key (record { msg_chan = o.1; timestamp = now }) m) ≡ some p
    → Owned (add_owner o key) p.msg_chan k
set-Owned o now key m own k p h =
    let v : PendingMsg = record { msg_chan = o.1; timestamp = now } in
    elim (Bool-cases (key == k)) [
      | inl e ↦
          let same : some v ≡ some p = ground (arith, e, get-set key k v m, h) in
          let chan : o.1 ≡ p.msg_chan = cc in
          subst (λ j. Owned (add_owner o key) p.msg_chan j) ((eq_iff key k).0 e)
            (subst (λ c. Owned (add_owner o key) c key) chan (Owned-add_owner o key))
      | inr e ↦
          Grows-add_owner o key p.msg_chan k (own k p (ground (arith, e, get-set key k v m, h)))
    ]

add_chan-Found :
    (o : Owners) (now : Time) (key : String) (r : Remote)
    → PendingOwned o r
    → Found o key (add_chan now key r)
add_chan-Found (owner, made) now key r (same, own) =
    let o : Owners = (owner, r.made_chans) in
    let own' =
      subst
        (λ n.
          (k : String) (p : PendingMsg) → get k r.pending ≡ some p → Owned (owner, n) p.msg_chan k)
        same own in
    option_keeps (Found (owner, made) key) (get key r.pending) _ _
      (λ e. (
        add_owner o key,
        (λ c k h. Grows-add_owner o key c k (subst (λ n. Owned (owner, n) c k) same h)),
        (refl, set-Owned o now key r.pending own'),
        Owned-add_owner o key,
      ))
      (λ p e. ((owner, made), (λ c k h. h), (same, own), own key p e))

pub get_pending_chan-Found :
    (o : Owners) (now : Time) (key : String) (r : Remote)
    → PendingOwned o r
    → Found o key (get_pending_chan now key r)
unfolding get_pending_chan
get_pending_chan-Found o now key r h =
    add_chan-Found o now key (make_room r) (make_room-PendingOwned o r h)

pub remove-PendingOwned :
    (o : Owners) (k : String) (r : Remote)
    → PendingOwned o r
    → PendingOwned o (record r { pending = remove k r.pending })
remove-PendingOwned o k r (made, own) =
    (made, λ j p h. own j p (ground (arith, get-remove k j r.pending, h)))

-- Of a connection: every message that `Serve` keeps is one that was read, has the key of its
-- channel, and a call waits at the channel of its own key.
module _ {J : Type 0} (json : Json J) (Seen : Message J → Type 0) where
  abbrev pub Answer : String → Message J → Type 0
  Answer k msg = Seen msg × (msg.request ≡ none) × (key_of json msg ≡ k)

  abbrev pub ServingOk : Owners → Serving J → Type 0
  ServingOk o (sending c msg) = Seen msg × (msg.request ≡ none) × Owned o c (key_of json msg)
  ServingOk o _ = Unit

  abbrev pub ChanOk : Owners → ℕ → Option (Message J) → Type 0
  ChanOk o c none = Unit
  ChanOk o c (some msg) = Seen msg × (msg.request ≡ none) × Owned o c (key_of json msg)

  abbrev pub CallOk : Owners → Calling J → Type 0
  CallOk o (waiting req c) = Owned o c (key_of json req)
  CallOk o (received req msg) = Answer (key_of json req) msg
  CallOk o (returned (some req) (ok v)) =
      (msg : Message J) × Answer (key_of json req) msg × (outcome json msg.response ≡ ok v)
  CallOk o _ = Unit

  ServingOk-Grows : {o o' : Owners} → Grows o o' → (c : Serving J) → ServingOk o c → ServingOk o' c
  ServingOk-Grows g reading h = tt
  ServingOk-Grows g (sending c msg) (seen, plain, own) = (seen, plain, g c _ own)
  ServingOk-Grows g (stopped e) h = tt

  ChanOk-Grows :
      {o o' : Owners}
      → Grows o o'
      → (c : ℕ) (held : Option (Message J)) → ChanOk o c held
      → ChanOk o' c held
  ChanOk-Grows g c none h = tt
  ChanOk-Grows g c (some msg) (seen, plain, own) = (seen, plain, g c _ own)

  CallOk-Grows : {o o' : Owners} → Grows o o' → (c : Calling J) → CallOk o c → CallOk o' c
  CallOk-Grows g idle h = tt
  CallOk-Grows g (writing req) h = tt
  CallOk-Grows g (written req) h = tt
  CallOk-Grows g (waiting req c) h = g c _ h
  CallOk-Grows g (received req msg) h = h
  CallOk-Grows g (returned none r) h = tt
  CallOk-Grows g (returned (some req) (ok v)) h = h
  CallOk-Grows g (returned (some req) (err e)) h = tt

  module _ {S : Type 0} where
    pub record Routed (o : Owners) (x : Connection S J) : Type 0 where
      pub pending_ok : PendingOwned o x.remote
      pub serving_ok : ServingOk o x.serving
      pub chans_ok : (c : ℕ) → ChanOk o c (x.chans c)
      pub calls_ok : (n : ℕ) → CallOk o (x.calls n)

    abbrev pub IsRouted : Option (Connection S J) → Type 0
    IsRouted none = Unit
    IsRouted (some x) = (o : Owners) × Routed o x

    -- The other fields play no part.
    pub Routed-elsewhere :
        (o : Owners) (x : Connection S J) (id : ℤ) (hs : List (Message J)) (s : S)
        (sent : List (Message J))
        → Routed o x
        → Routed o (record x { last_id = id; handling = hs; receivers = s; sent = sent })
    Routed-elsewhere o x id hs s sent inv = record {
      pending_ok = inv.pending_ok;
      serving_ok = inv.serving_ok;
      chans_ok = inv.chans_ok;
      calls_ok = inv.calls_ok;
    }

    pub put_call-Routed :
        (o : Owners) (x : Connection S J) (n : ℕ) (c : Calling J)
        → CallOk o c
        → Routed o x
        → Routed o (record x { calls = put n c x.calls })
    put_call-Routed o x n c h inv = record {
      pending_ok = inv.pending_ok;
      serving_ok = inv.serving_ok;
      chans_ok = inv.chans_ok;
      calls_ok = put_keeps (λ _. CallOk o) n c x.calls h inv.calls_ok;
    }

    pub put_chan-Routed :
        (o : Owners) (x : Connection S J) (c : ℕ) (held : Option (Message J))
        → ChanOk o c held
        → Routed o x
        → Routed o (record x { chans = put c held x.chans })
    put_chan-Routed o x c held h inv = record {
      pending_ok = inv.pending_ok;
      serving_ok = inv.serving_ok;
      chans_ok = put_keeps (ChanOk o) c held x.chans h inv.chans_ok;
      calls_ok = inv.calls_ok;
    }

    pub put_serving-Routed :
        (o : Owners) (x : Connection S J) (at : Serving J)
        → ServingOk o at
        → Routed o x
        → Routed o (record x { serving = at })
    put_serving-Routed o x at h inv = record {
      pending_ok = inv.pending_ok;
      serving_ok = h;
      chans_ok = inv.chans_ok;
      calls_ok = inv.calls_ok;
    }

    -- With more channels made, and another map of the waiting calls.
    pub put_remote-Routed :
        (o o' : Owners) (x : Connection S J) (r : Remote)
        → Grows o o'
        → PendingOwned o' r
        → Routed o x
        → Routed o' (record x { remote = r })
    put_remote-Routed o o' x r g own inv = record {
      pending_ok = own;
      serving_ok = ServingOk-Grows g x.serving inv.serving_ok;
      chans_ok = λ c. ChanOk-Grows g c (x.chans c) (inv.chans_ok c);
      calls_ok = λ n. CallOk-Grows g (x.calls n) (inv.calls_ok n);
    }
