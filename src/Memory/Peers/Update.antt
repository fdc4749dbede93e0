-- ===== src/Memory/Peers/Update.antt =====
-- What `UpdateNodePeers` of the in-memory store records, drops and returns.
use vipnode.Base.{
  ℕ, String, ◌≡◌, refl, Bool, false, not, ◌||◌, Option, none, some, List, [], ◌∷◌, ◌++◌, arith,
  ◌==◌, eq_iff, if◌then◌else◌, Option-cases, inl, inr, Bool-cases,
}
use vipnode.Base.Exec.{ok}
use vipnode.Int.{pos, ◌-ℤ◌}
use vipnode.Dict.{
  Dict, get, set, remove, Distinct, get-set, get-remove, set-Distinct, remove-Distinct,
}
use vipnode.Clock.{Time, after}
use vipnode.Store.{Node, expire_interval}
use vipnode.Memory.State.{MemNode, MemoryStore}
use vipnode.Memory.Peers.{refresh, expire, update_node_peers}

abbrev pub contains : String → List String → Bool
contains x [] = false
contains x (y ∷ ys) = y == x || contains x ys

contains-append :
    (x : String) (xs ys : List String) → contains x (xs ++ ys) ≡ contains x xs || contains x ys
contains-append x [] ys = refl
contains-append x (y ∷ xs) ys = ground (arith, contains-append x xs ys)

-- The time at which a peer is known to have been seen: that of its registration if it is reported
-- and registered, else what was recorded before.
abbrev pub seen_at : Dict MemNode → List String → Dict Time → String → Option Time
seen_at nodes peers known j =
    if contains j peers
    then elim (get j nodes) [ none ↦ get j known | some p ↦ some p.node.last_seen ]
    else get j known

-- A time that lies after the deadline.
abbrev pub recent : Time → Option Time → Option Time
recent deadline none = none
recent deadline (some t) = if after t deadline then some t else none

abbrev pub is_stale : Time → Option Time → Bool
is_stale deadline none = false
is_stale deadline (some t) = not (after t deadline)

drop_stale :
    (deadline : Time) (o : Option Time)
    → (if is_stale deadline o then none else o) ≡ recent deadline o
drop_stale deadline none = refl
drop_stale deadline (some t) = ground arith

get-refresh :
    (nodes : Dict MemNode) (peers : List String) (known : Dict Time) (j : String)
    → get j (refresh nodes peers known) ≡ seen_at nodes peers known j
unfolding refresh
get-refresh nodes [] known j = refl
get-refresh nodes (peer ∷ peers) known j = elim (Option-cases (get peer nodes)) [
  | inl unknown ↦ grind (arith, get-refresh nodes peers known j, eq_iff peer j)
  | inr (p, e) ↦ grind (
    arith,
    get-refresh nodes peers (set peer p.node.last_seen known) j,
    get-set peer j p.node.last_seen known,
    eq_iff peer j,
  )
]

pub refresh-Distinct :
    (nodes : Dict MemNode) (peers : List String) (known : Dict Time)
    → Distinct known
    → Distinct (refresh nodes peers known)
unfolding refresh
refresh-Distinct nodes [] known h = h
refresh-Distinct nodes (peer ∷ peers) known h = elim (Option-cases (get peer nodes)) [
  | inl unknown ↦ rw unknown (refresh-Distinct nodes peers known h)
  | inr (p, e) ↦ rw e (
      refresh-Distinct nodes peers (set peer p.node.last_seen known)
        (set-Distinct peer p.node.last_seen known h))
]

module _ (deadline : Time) (j : String) where
  expire-kept :
      (rest known : Dict Time) (inactive : List String)
      → Distinct rest
      → get j (expire deadline rest (known, inactive)).0
        ≡ (if is_stale deadline (get j rest) then none else get j known)
  unfolding expire get
  expire-kept [] known inactive h = refl
  expire-kept ((id, seen) ∷ rest) known inactive h = elim (Bool-cases (after seen deadline)) [
    | inl fresh ↦
        rw (fresh, expire, get)
          (ground (arith, fresh, h.0, expire-kept rest known inactive h.1, eq_iff id j))
    | inr stale ↦
        rw (stale, expire, get)
          (ground (
            arith,
            stale,
            h.0,
            expire-kept rest (remove id known) (inactive ++ id ∷ []) h.1,
            get-remove id j known,
            eq_iff id j,
          ))
  ]

  expire-inactive :
      (rest known : Dict Time) (inactive : List String)
      → Distinct rest
      → contains j (expire deadline rest (known, inactive)).1
        ≡ (contains j inactive || is_stale deadline (get j rest))
  unfolding expire get
  expire-inactive [] known inactive h = ground arith
  expire-inactive ((id, seen) ∷ rest) known inactive h = elim (Bool-cases (after seen deadline)) [
    | inl fresh ↦
        rw (fresh, expire, get)
          (ground (arith, fresh, h.0, expire-inactive rest known inactive h.1, eq_iff id j))
    | inr stale ↦
        rw (stale, expire, get)
          (ground (
            arith,
            stale,
            h.0,
            expire-inactive rest (remove id known) (inactive ++ id ∷ []) h.1,
            contains-append j inactive (id ∷ []),
            eq_iff id j,
          ))
  ]

pub expire-Distinct :
    (deadline : Time) (rest known : Dict Time) (inactive : List String)
    → Distinct known
    → Distinct (expire deadline rest (known, inactive)).0
unfolding expire
expire-Distinct deadline [] known inactive h = h
expire-Distinct deadline ((id, seen) ∷ rest) known inactive h =
    elim (Bool-cases (after seen deadline)) [
      | inl fresh ↦ rw (fresh, expire) (expire-Distinct deadline rest known inactive h)
      | inr stale ↦
          rw (stale, expire)
            (expire-Distinct deadline rest (remove id known) (inactive ++ id ∷ [])
              (remove-Distinct id known h))
    ]

-- `UpdateNodePeers` of a registered node whose recorded peers are distinct: it is last seen now, at the block that it reports; a peer
-- is kept exactly if it was last seen after the deadline, and returned as inactive exactly if it is
-- known and was not, by the time of its own registration where the node reports it.
pub update_node_peers_lem :
    (now : Time) (node_id : String) (peers : List String) (block : ℕ) (s : MemoryStore)
    (n : MemNode)
    → Distinct n.peers
    → get node_id s.nodes ≡ some n
    → let deadline = now -ℤ pos expire_interval in
      let (r, s') = update_node_peers now node_id peers block s in
      (inactive : List String) × (n' : MemNode) × (r ≡ ok inactive)
      × (s' ≡ record s { nodes = set node_id n' s.nodes })
      × (n'.node ≡ record n.node { last_seen = now; block_number = block })
      × ((j : String) → get j n'.peers ≡ recent deadline (seen_at s.nodes peers n.peers j))
      × ((j : String) → contains j inactive ≡ is_stale deadline (seen_at s.nodes peers n.peers j))
unfolding update_node_peers
update_node_peers_lem now node_id peers block s n distinct found =
    let deadline = now -ℤ pos expire_interval in
    let known = refresh s.nodes peers n.peers in
    let d = refresh-Distinct s.nodes peers n.peers distinct in
    let result = expire deadline known (known, []) in
    let node : Node = record n.node { last_seen = now; block_number = block } in
    (
      result.1,
      record { node = node; peers = result.0 },
      ground (arith, found),
      ground (arith, found),
      refl,
      (λ j.
          rw (expire-kept deadline j known known [] d, get-refresh s.nodes peers n.peers j)
            (drop_stale deadline (seen_at s.nodes peers n.peers j))),
      (λ j. rw (expire-inactive deadline j known known [] d, get-refresh s.nodes peers n.peers j)),
    )
