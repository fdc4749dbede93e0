-- ===== src/Ethnode/Clients.antt =====
-- ethnode/geth.go, parity.go, pantheon.go and basenode.go, and the detection of a client in rpc.go. The
-- RPC client of go-ethereum is a parameter.
pub mod Peers
use Prim.Native.String.{◌++◌}
use text.Mathlib.Text.{starts_with}
use text.Mathlib.TextPositions.{starts_with-append}
use vipnode.Base.{
  ℕ, String, ◌≡◌, refl, ap, Bool, true, false, not, ◌&&◌, ◌||◌, Option, none, some, List, [], ◌∷◌,
  ◌==◌, if◌then◌else◌, nat_eq, arith,
}
use vipnode.Base.Exec.{
  Exec, Result, ok, err, Error, rpc_error, compatibility_error, pure, lift, ◌>>=◌, ◌>>◌,
}
use vipnode.Int.{ℤ, pos, eqb_ℤ}
use vipnode.Jsonrpc.Errors.{method_not_found}
use vipnode.Ethnode.{NodeKind, unknown, geth, parity, pantheon, UserAgent, PeerInfo, EthNode}

abbrev explain : String → String → String
explain method modules =
    "Parity RPC method \""
    ++ (method
        ++ ("\" is not available, add \""
            ++ (modules
                ++ "\" to allowed RPC modules. For example, run parity with the flag --ipc-apis=\"safe,parity_set\"")))

-- `parityWrapModuleError`
unfoldable pub parity_wrap_module_error : Error → String → String → Error
parity_wrap_module_error (rpc_error code message) method modules =
    if eqb_ℤ code method_not_found
    then compatibility_error (rpc_error code message) (explain method modules)
    else rpc_error code message
parity_wrap_module_error x method modules = x

-- `parityPeerInfo`: its name may be of two forms, and is not read here.
pub record ParityPeer : Type 0 where
  pub id : String
  pub name : String
  pub protocols : List String
  pub remote_address : String

-- `client.CallContext`, by the type of the result, and the parsers of numbers of the standard library.
pub record RpcClient (W : Type 0) : Type 0 where
  pub call_any : String → List String → Exec W (Unit {0})
  pub call_text : String → Exec W String
  pub call_peers : String → Exec W (List PeerInfo)
  pub call_parity_peers : String → Exec W (List ParityPeer)
  -- the field `enode` of the result
  pub call_node_info : String → Exec W String
  pub parse_uint : String → Result ℕ
  pub atoi : String → Result ℤ
  pub parse_int32 : String → Result ℤ
  -- the decoding of the name of a parity peer
  pub parity_name : String → Result String

-- `encodeNodeID`
unfoldable pub encode_node_id : String → String
encode_node_id id = if starts_with id "enode://" then id else "enode://" ++ id

-- `parityNodeID`
unfoldable pub parity_node_id : String → String
parity_node_id id = if starts_with id "enode://" then id else "enode://" ++ (id ++ "@[::]:30303")

-- The kind that a version names.
unfoldable pub kind_of_version : String → NodeKind
kind_of_version version =
    if starts_with version "Geth/"
    then geth
    else if starts_with version "pantheon/"
    then pantheon
    else if starts_with version "Parity-Ethereum/" || starts_with version "Parity/"
    then parity
    else unknown

-- Whether a protocol is that of a full node.
abbrev pub is_full_protocol : NodeKind → ℤ → Bool
is_full_protocol parity protocol = not (eqb_ℤ protocol (pos 1))
is_full_protocol geth protocol = not (eqb_ℤ protocol (pos 10002))
is_full_protocol kind protocol = true

module _ {W : Type 0} (client : RpcClient W) where
  -- `ParseUserAgent`
  unfoldable pub parse_user_agent : String → String → String → Result UserAgent
  unfolding kind_of_version
  parse_user_agent version protocol net = elim (client.atoi net) [
    | err x ↦ err x
    | ok network ↦ elim (client.parse_int32 protocol) [
      | err x ↦ err x
      | ok p ↦ ok (record {
        version = version;
        eth_protocol = protocol;
        kind = kind_of_version version;
        network = network;
        is_full_node = is_full_protocol (kind_of_version version) p;
      })
    ]
  ]

  -- `DetectClient`
  unfoldable pub detect_client : Exec W UserAgent
  unfolding parse_user_agent
  detect_client = do
    version ← client.call_text "web3_clientVersion"
    protocol ← client.call_text "eth_protocolVersion"
    net ← client.call_text "net_version"
    lift (parse_user_agent version protocol net)

  -- `BlockNumber`
  unfoldable pub block_number_of : Exec W ℕ
  block_number_of = do text ← client.call_text "eth_blockNumber"; lift (client.parse_uint text)

  -- `gethNode`
  unfoldable pub geth_node : UserAgent → EthNode W
  unfolding block_number_of encode_node_id
  geth_node agent = record {
    enode = client.call_node_info "admin_nodeInfo";
    user_agent = λ w. agent;
    peers = client.call_peers "admin_peers";
    block_number = block_number_of;
    add_trusted_peer = λ id. client.call_any "admin_addTrustedPeer" (encode_node_id id ∷ []);
    remove_trusted_peer = λ id. client.call_any "admin_removeTrustedPeer" (encode_node_id id ∷ []);
    connect_peer = λ uri. client.call_any "admin_addPeer" (encode_node_id uri ∷ []);
    disconnect_peer = λ id. client.call_any "admin_removePeer" (encode_node_id id ∷ []);
  }

  -- `pantheonNode`; adding a peer is trusting it.
  unfoldable pub pantheon_node : UserAgent → EthNode W
  unfolding block_number_of
  pantheon_node agent = record {
    enode = client.call_text "net_enode";
    user_agent = λ w. agent;
    peers = client.call_peers "admin_peers";
    block_number = block_number_of;
    add_trusted_peer = λ id. client.call_any "admin_addPeer" (id ∷ []);
    remove_trusted_peer = λ id. client.call_any "admin_removePeer" (id ∷ []);
    connect_peer = λ uri. client.call_any "admin_addPeer" (uri ∷ []);
    disconnect_peer = λ id. client.call_any "admin_removePeer" (id ∷ []);
  }

  -- `parityPeerInfo.PeerInfo`
  unfoldable pub parity_peer_info : ParityPeer → Result PeerInfo
  parity_peer_info p = elim (client.parity_name p.name) [
    | err x ↦ err x
    | ok name ↦ ok (record { id = p.id; enode = ""; remote_address = p.remote_address })
  ]

  -- `filterActivePeers`: peers without protocols have not finished the handshake.
  unfoldable pub filter_active_peers : List ParityPeer → Result (List PeerInfo)
  unfolding parity_peer_info
  filter_active_peers [] = ok []
  filter_active_peers (p ∷ rest) =
      let others = filter_active_peers rest in
      elim p.protocols [
        | [] ↦ others
        | q ∷ qs ↦ elim (parity_peer_info p) [
          | err x ↦ err x
          | ok info ↦ elim others [ err x ↦ err x | ok l ↦ ok (info ∷ l) ]
        ]
      ]

  -- `parityNode`; a reserved peer is both connected and trusted.
  unfoldable pub parity_node : UserAgent → EthNode W
  unfolding block_number_of parity_node_id filter_active_peers
  parity_node agent = record {
    enode = client.call_text "parity_enode";
    user_agent = λ w. agent;
    peers = (do
      peers ← client.call_parity_peers "parity_netPeers"
      lift (filter_active_peers peers));
    block_number = block_number_of;
    add_trusted_peer = λ id. client.call_any "parity_addReservedPeer" (parity_node_id id ∷ []);
    remove_trusted_peer =
        λ id. client.call_any "parity_removeReservedPeer" (parity_node_id id ∷ []);
    connect_peer =
        λ uri. client.call_any "parity_addReservedPeer" (parity_node_id (parity_node_id uri) ∷ []);
    disconnect_peer =
        λ id. client.call_any "parity_removeReservedPeer" (parity_node_id (parity_node_id id) ∷ []);
  }

  -- What `CheckCompatible` makes of its second call: only a missing method is an error.
  abbrev pub only_incompatible : Error → Result (Unit {0})
  only_incompatible (compatibility_error x why) = err (compatibility_error x why)
  only_incompatible x = ok tt

  abbrev pub wrapped : String → String → Result (Unit {0}) → Result (Unit {0})
  wrapped method modules (ok _) = ok tt
  wrapped method modules (err x) = err (parity_wrap_module_error x method modules)

  abbrev pub forgiven : Result (Unit {0}) → Result (Unit {0})
  forgiven (ok _) = ok tt
  forgiven (err x) =
      only_incompatible (parity_wrap_module_error x "parity_addReservedPeer" "parity_set")

  -- `CheckCompatible` of a parity node.
  unfoldable pub check_compatible : Exec W (Unit {0})
  unfolding parity_wrap_module_error
  check_compatible = do
    (λ w.
        let (r, w') = client.call_any "parity_enode" [] w in
        (wrapped "parity_enode" "parity" r, w'))
    (λ w. let (r, w') = client.call_any "parity_addReservedPeer" ("" ∷ []) w in (forgiven r, w'))

  abbrev pub implementation_of : UserAgent → NodeKind → EthNode W
  implementation_of agent parity = parity_node agent
  implementation_of agent pantheon = pantheon_node agent
  implementation_of agent kind = geth_node agent

  abbrev pub check_node : NodeKind → Exec W (Unit {0})
  check_node parity = check_compatible
  check_node kind = pure tt

  -- `RemoteNode`; a node of another kind is taken as geth.
  unfoldable pub remote_node : Exec W (EthNode W)
  unfolding detect_client
  remote_node = do
    agent ← detect_client
    check_node agent.kind
    pure (implementation_of agent agent.kind)
