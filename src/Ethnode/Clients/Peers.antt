-- ===== src/Ethnode/Clients/Peers.antt =====
-- How the nodes of ethnode/ name peers in their calls.
use Prim.Native.String.{◌++◌}
use text.Mathlib.Text.{starts_with}
use text.Mathlib.TextPositions.{starts_with-append}
use vipnode.Base.{String, ◌≡◌, refl, ap, true, false, [], ◌∷◌, Bool-cases, inl, inr}
use vipnode.Ethnode.{UserAgent, EthNode}
use vipnode.Ethnode.Clients.{
  RpcClient, encode_node_id, parity_node_id, geth_node, parity_node, pantheon_node,
}

prefix_kept : (s : String) → starts_with ("enode://" ++ s) "enode://" ≡ true
prefix_kept s = starts_with-append "enode://" s

encode_node_id-prefix :
    (id : String)
    → starts_with id "enode://" ≡ false
    → encode_node_id ("enode://" ++ id) ≡ encode_node_id id
unfolding encode_node_id
encode_node_id-prefix id bare = rw (prefix_kept id, bare) refl

parity_node_id-twice : (id : String) → parity_node_id (parity_node_id id) ≡ parity_node_id id
unfolding parity_node_id
parity_node_id-twice id = elim (Bool-cases (starts_with id "enode://")) [
  | inl full ↦ rw (full, full) refl
  | inr bare ↦ rw (bare, prefix_kept (id ++ "@[::]:30303")) refl
]

-- The calls of a node are the same for two names of a peer.
abbrev pub SameCalls : {W : Type 0} → EthNode W → String → String → Type 0
SameCalls node a b =
    (node.add_trusted_peer a ≡ node.add_trusted_peer b)
    × (node.remove_trusted_peer a ≡ node.remove_trusted_peer b)
    × (node.connect_peer a ≡ node.connect_peer b)
    × (node.disconnect_peer a ≡ node.disconnect_peer b)

-- Connecting to a peer is trusting it, and disconnecting from it is trusting it no more.
abbrev pub Reserves : {W : Type 0} → EthNode W → String → Type 0
Reserves node peer =
    (node.connect_peer peer ≡ node.add_trusted_peer peer)
    × (node.disconnect_peer peer ≡ node.remove_trusted_peer peer)

module _ {W : Type 0} (client : RpcClient W) (agent : UserAgent) (id : String)
    (bare : starts_with id "enode://" ≡ false) where
  -- A peer may be named to a geth node by its bare ID or by its enode: the calls are the same. A parity
  -- node and a pantheon node have one set of peers for both: connecting is trusting.
  pub peer_names :
      SameCalls (geth_node client agent) ("enode://" ++ id) id
      × Reserves (parity_node client agent) id
      × Reserves (pantheon_node client agent) id
  unfolding geth_node parity_node pantheon_node
  peer_names =
      let same = encode_node_id-prefix id bare in
      let twice = parity_node_id-twice id in
      (
        (
          ap (λ s. client.call_any "admin_addTrustedPeer" (s ∷ [])) same,
          ap (λ s. client.call_any "admin_removeTrustedPeer" (s ∷ [])) same,
          ap (λ s. client.call_any "admin_addPeer" (s ∷ [])) same,
          ap (λ s. client.call_any "admin_removePeer" (s ∷ [])) same,
        ),
        (
          ap (λ s. client.call_any "parity_addReservedPeer" (s ∷ [])) twice,
          ap (λ s. client.call_any "parity_removeReservedPeer" (s ∷ [])) twice,
        ),
        (refl, refl),
      )
