-- ===== src/Pool/Peering/Memory.antt =====
-- `requestHosts` over the in-memory store.
use vipnode.Base.{
  ℕ, suc, ◌+◌, ◌-◌, ◌≤◌, ◌<◌, String, ◌≡◌, ◌≢◌, true, false, none, some, List, [], ◌∷◌, All,
  All-map, All-take, length, arith, eq_iff, ltb, ◌&&◌, if◌then◌else◌, subst, ap, take, length-take,
}
use vipnode.Base.Exec.{ok, bind-eq-ok}
use vipnode.Int.{ℤ, pos, ◌+ℤ◌, ◌-ℤ◌, eqb_ℤ, int_laws}
use vipnode.Dict.{Dict, get, set, get-set, values}
use vipnode.Clock.{Time, after}
use vipnode.Store.{Node, expire_interval}
use vipnode.Memory.State.{MemoryStore}
use vipnode.Memory.Driver.{memory_driver}
use vipnode.Memory.Nodes.{active_hosts}
use vipnode.Memory.Nodes.Hosts.{candidates, candidates-All, active_hosts-listed}
use vipnode.Memory.Peers.{node_peers}
use vipnode.Pool.State.{Setup, Outside, Pool, Service, on_store}
use vipnode.Pool.Peering.{
  skip_peers, cap_num, list_hosts, choose, whitelist, request_hosts, whitelist_call,
}
use vipnode.Pool.Peering.Accepted.{whitelist-HasAccepted}

abbrev pub at_memory : Setup MemoryStore → Setup MemoryStore
at_memory setup = record setup { store = memory_driver }

-- The nodes that are skipped: the node itself and its peers.
get-skip_peers :
    (j : String) (peers : List Node) (skip : Dict (Unit {0}))
    → get j (skip_peers peers skip) ≡ none
    → (get j skip ≡ none) × All (λ n. n.id ≢ j) peers
unfolding skip_peers
get-skip_peers j [] skip h = (h, tt)
get-skip_peers j (peer ∷ peers) skip h =
    let ih = get-skip_peers j peers (set peer.id tt skip) h in
    (
      ground (arith, ih.0, get-set peer.id j tt skip),
      ((λ e. ground (arith, ih.0, get-set peer.id j tt skip, eq_iff peer.id j, e)), ih.1),
    )

module _ {S : Type 0} (setup : Setup S) (out : Outside) where
  -- The steps of a request that succeeds.
  request_hosts-steps :
      (now : Time) (node_id : String) (num : ℤ) (kind : String) (p : Pool S) (hosts : List Node)
      → eqb_ℤ (cap_num setup out num) (pos 0) ≡ false
      → setup.skip_whitelist ≡ false
      → (request_hosts setup out now node_id num kind p).0 ≡ ok hosts
      → (peers nodes : List Node) × (let skip = skip_peers peers ((node_id, tt) ∷ []) in
          let limit = cap_num setup out num +ℤ pos (length skip) in
          let asked = setup.store.node_peers node_id p.stored in
          let listed = setup.store.active_hosts now kind limit asked.1 in
          (asked.0 ≡ ok peers)
          × (listed.0 ≡ ok nodes)
          × ((whitelist setup out node_id skip nodes (record p { stored = listed.1 })).0
              ≡ ok hosts))
  unfolding request_hosts list_hosts choose
  request_hosts-steps now node_id num kind p hosts some_wanted called h =
      let (peers, e, k) =
        bind-eq-ok (on_store (setup.store.node_peers node_id))
          (list_hosts setup out now node_id num kind) p (simp some_wanted at h) in
      let p' : Pool S = record p { stored = (setup.store.node_peers node_id p.stored).1 } in
      let skip = skip_peers peers ((node_id, tt) ∷ []) in
      let limit = cap_num setup out num +ℤ pos (length skip) in
      let (nodes, e', k') =
        bind-eq-ok (on_store (setup.store.active_hosts now kind limit))
          (choose setup out node_id skip) p' k in
      (peers, nodes, (e, e', simp called at k'))

-- A host that a node is offered: a host of the kind, seen after the deadline, neither the node
-- itself nor one of its peers, that has a connection and accepted the node.
pub record IsOffered (out : Outside) (now : Time) (kind node_id : String) (peers : List Node)
    (p : Pool MemoryStore) (n : Node) : Type 0 where
  pub host : n.is_host ≡ true
  pub recent : after n.last_seen (now -ℤ pos expire_interval) ≡ true
  pub of_kind : kind ≢ "" → n.kind ≡ kind
  pub other : n.id ≢ node_id
  pub no_peer : All (λ q. q.id ≢ n.id) peers
  pub remote : Service
  pub connected : get n.id p.remote_hosts ≡ some remote
  pub accepted : out.answer (whitelist_call out node_id (n, remote)) ≡ none

-- The number that is asked for, and the maximum if that is set and lower.
abbrev pub allowed : ℕ → ℕ → ℕ
allowed m n = if ltb 0 m && ltb m n then m else n

module _ (setup : Setup MemoryStore) (out : Outside) where
  cap_num-allowed :
      (n m : ℕ)
      → setup.max_request_hosts ≡ pos m
      → (c : ℕ) × (suc c ≡ allowed m (suc n))
        × (cap_num (at_memory setup) out (pos (suc n)) ≡ pos (suc c))
  unfolding cap_num
  cap_num-allowed n m e = (allowed m (suc n) - 1, ground arith, rw e (ground arith))

  node_peers-state : (id : String) (s : MemoryStore) → (node_peers id s).1 ≡ s
  unfolding node_peers
  node_peers-state id s = ground arith

  positive : (c : ℕ) → eqb_ℤ (pos (suc c)) (pos 0) ≡ false
  positive c = ground arith

  add_pos : (c k : ℕ) → pos (suc c) +ℤ pos k ≡ pos (suc (c + k))
  add_pos c k = grind int_laws

  not_self : (j id : String) → get j ((id, tt) ∷ []) ≡ none → j ≢ id
  unfolding get
  not_self j id h e = ground (arith, eq_iff id j)

  offered :
      (now : Time) (node_id kind : String) (k : ℕ) (p : Pool MemoryStore)
      (peers nodes hosts : List Node) (s s' : MemoryStore)
      → (active_hosts now kind (pos (suc k)) s).0 ≡ ok nodes
      → (whitelist
          (at_memory setup)
          out
          node_id
          (skip_peers peers ((node_id, tt) ∷ []))
          nodes
          (record p { stored = s' })).0
        ≡ ok hosts
      → All (IsOffered out now kind node_id peers p) hosts
        × (0 < length hosts)
        × (length hosts ≤ suc k)
  offered now node_id kind k p peers nodes hosts s s' listed rest =
      let skip = skip_peers peers ((node_id, tt) ∷ []) in
      let P = λ (n : Node).
        (n.is_host ≡ true)
        × (after n.last_seen (now -ℤ pos expire_interval) ≡ true)
        × (kind ≢ "" → n.kind ≡ kind) in
      let all = candidates (now -ℤ pos expire_interval) kind (values s.nodes) in
      let same : take (suc k) all ≡ nodes = active_hosts-listed now kind k s nodes listed in
      let found =
        whitelist-HasAccepted (at_memory setup) out P node_id skip nodes (record p { stored = s' })
          hosts
          (subst (All P) same (
            All-take P (suc k) all
              (candidates-All (now -ℤ pos expire_interval) kind (values s.nodes))))
          rest in
      (
        All-map _ _ hosts
            (λ n (remote, good, free, connected, accepted).
              let away = get-skip_peers n.id peers ((node_id, tt) ∷ []) free in
              record {
                host = good.0;
                recent = good.1;
                of_kind = good.2;
                other = not_self n.id node_id away.0;
                no_peer = away.1;
                remote = remote;
                connected = connected;
                accepted = accepted;
              })
            found.0,
        found.1,
        omega (arith, found.2, ap length same, length-take (suc k) all),
      )

  -- Over the in-memory store, with whitelisting and a maximum of 0 or more, a request for at least one
  -- host that succeeds offers only hosts that may be offered, at least one of them, and at most as
  -- many as are allowed and as are skipped together.
  pub request_hosts-IsOffered :
      (now : Time) (node_id : String) (n m : ℕ) (kind : String) (p : Pool MemoryStore)
      (hosts : List Node)
      → setup.max_request_hosts ≡ pos m
      → setup.skip_whitelist ≡ false
      → (request_hosts (at_memory setup) out now node_id (pos (suc n)) kind p).0 ≡ ok hosts
      → (peers : List Node) × (((node_peers node_id p.stored).0 ≡ ok peers)
          × All (IsOffered out now kind node_id peers p) hosts
          × (0 < length hosts)
          × (length hosts ≤ allowed m (suc n) + length (skip_peers peers ((node_id, tt) ∷ []))))
  request_hosts-IsOffered now node_id n m kind p hosts max called h =
      let (c, fits, cap) = cap_num-allowed n m max in
      let (peers, nodes, (asked, listed, rest)) =
        request_hosts-steps (at_memory setup) out now node_id (pos (suc n)) kind p hosts
          (rw cap (positive c)) called h in
      let skip = skip_peers peers ((node_id, tt) ∷ []) in
      let limit : cap_num (at_memory setup) out (pos (suc n)) +ℤ pos (length skip)
          ≡ pos (suc (c + length skip)) =
        rw cap (add_pos c (length skip)) in
      let result =
        offered now node_id kind (c + length skip) p peers nodes hosts
          (node_peers node_id p.stored).1 _ (rw limit at listed) rest in
      (peers, (asked, result.0, result.1, omega (arith, result.2, fits)))
