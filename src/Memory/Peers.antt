-- ===== src/Memory/Peers.antt =====
-- The peers of pool/store/memory/memory.go: `NodePeers` and `UpdateNodePeers`.
pub mod Update
use vipnode.Base.{
  ℕ, String, Bool, true, false, Option, none, some, List, [], ◌∷◌, ◌++◌, if◌then◌else◌,
}
use vipnode.Base.Exec.{Exec, Result, ok, err, unregistered_node}
use vipnode.Int.{ℤ, pos, ◌-ℤ◌}
use vipnode.Dict.{Dict, get, set, remove}
use vipnode.Clock.{Time, after}
use vipnode.Store.{Node, expire_interval}
use vipnode.Memory.State.{MemNode, MemoryStore}

-- The loop of `NodePeers`: peers that are no longer registered are left out.
unfoldable pub peer_nodes : Dict MemNode → Dict Time → List Node
peer_nodes nodes [] = []
peer_nodes nodes ((id, seen) ∷ peers) =
    let rest = peer_nodes nodes peers in
    elim (get id nodes) [ none ↦ rest | some n ↦ n.node ∷ rest ]

unfoldable pub node_peers : String → Exec MemoryStore (List Node)
node_peers node_id s = elim (get node_id s.nodes) [
  | none ↦ (err unregistered_node, s)
  | some n ↦ (ok (peer_nodes s.nodes n.peers), s)
]

-- The first loop of `UpdateNodePeers`: a registered peer is recorded with the time at which it was
-- itself last seen. `ParseNodeID` never fails.
unfoldable pub refresh : Dict MemNode → List String → Dict Time → Dict Time
refresh nodes [] known = known
refresh nodes (peer ∷ peers) known =
    refresh nodes peers
      (elim (get peer nodes) [ none ↦ known | some p ↦ set peer p.node.last_seen known ])

-- The second loop: what was not seen after the deadline is deleted and returned.
unfoldable pub expire : Time → Dict Time → Dict Time × List String → Dict Time × List String
expire deadline [] acc = acc
expire deadline ((id, seen) ∷ rest) (known, inactive) =
    expire deadline rest
      (if after seen deadline then (known, inactive) else (remove id known, inactive ++ id ∷ []))

unfoldable pub update_node_peers : Time → String → List String → ℕ → Exec MemoryStore (List String)
update_node_peers now node_id peers block_number s = elim (get node_id s.nodes) [
  | none ↦ (err unregistered_node, s)
  | some n ↦
      let known = refresh s.nodes peers n.peers in
      let (kept, inactive) = expire (now -ℤ pos expire_interval) known (known, []) in
      let node = record n.node { last_seen = now; block_number = block_number } in
      (ok inactive, record s { nodes = set node_id (record { node = node; peers = kept }) s.nodes })
]
