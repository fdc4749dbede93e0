-- ===== src/Tests/Agents.antt =====
-- An agent beside a node with two peers, of which its pool lists one.
use vipnode.Base.{
  String, ◌≡◌, refl, true, false, none, some, List, [], ◌∷◌, map, if◌then◌else◌, ◌==◌,
}
use vipnode.Base.Exec.{Result, ok, err, external, rpc_error}
use vipnode.Int.{pos, negsuc, ◌-ℤ◌}
use vipnode.Dict.{get, set}
use vipnode.Ethnode.{PeerInfo, NodeKind, enode_uri}
use vipnode.Ethnode.Enode.{UriReader, NodeUri, parse_node_uri, node_id, remote_host, with_scheme}
use vipnode.Ethnode.{EthNode}
use vipnode.Agent.{PoolClient, PoolUpdate, Settings, Agent, to_disconnect, is_listed, update_peers}
use vipnode.Jsonrpc.Errors.{is_error_code}
use vipnode.Agent.Strict.{to_disconnect_lem, listed, reject}
use vipnode.Agent.Serve.{Wake, serve}

-- The calls that the node got.
abbrev Calls : Type 0
Calls = List String

abbrev peer_of : String → String → PeerInfo
peer_of id host = record { id = id; enode = ""; remote_address = host }

abbrev node : EthNode Calls
node = record {
  enode = λ w. (ok "enode://self@1.1.1.1", w);
  user_agent = λ w. record {
    version = "Geth";
    eth_protocol = "63";
    kind = NodeKind.geth;
    network = pos 1;
    is_full_node = true;
  };
  peers = λ w. (ok (peer_of "a" "2.2.2.2" ∷ peer_of "b" "3.3.3.3" ∷ []), w);
  block_number = λ w. (ok 7, w);
  add_trusted_peer = λ id w. (ok tt, ("trust " ∷ w));
  remove_trusted_peer = λ id w. (ok tt, ("untrust" ∷ w));
  connect_peer = λ uri w. (ok tt, (uri ∷ w));
  disconnect_peer = λ id w. (ok tt, (id ∷ w));
}

-- The pool lists the first peer at its host and the second at another.
abbrev pool : PoolClient Calls
pool = record {
  connect = λ r w. (ok (record { pool_version = "test"; hosts = []; message = "welcome" }), w);
  update = λ r w. (
    ok (record {
      balance = none;
      invalid_peers = [];
      active_peers = "enode://a@2.2.2.2" ∷ "enode://b@4.4.4.4" ∷ [];
      latest_block_number = 9;
    }),
    w,
  );
  peer = λ num kind w. (err (rpc_error (negsuc 32602) "no available host nodes found"), w);
}

abbrev uri : String → String → Result NodeUri
uri id host =
    ok (record { scheme = "enode"; path = ""; host = host; hostname = host; username = some id })

-- A reader of the URIs above.
abbrev reader : UriReader
reader = record {
  parse = λ s.
      if s == "enode://a@2.2.2.2"
      then uri "a" "2.2.2.2"
      else if s == "enode://b@3.3.3.3"
      then uri "b" "3.3.3.3"
      else if s == "enode://b@4.4.4.4"
      then uri "b" "4.4.4.4"
      else err (external "parse");
  is_local_ip = λ host. false;
}

abbrev settings : Settings
settings = record {
  node_uri = "";
  version = "";
  payout = "";
  num_hosts = pos 3;
  strict_peers = true;
  balance_callback = true;
  message_callback = true;
  block_callback = true;
  reader = reader;
  error_text = λ x. "error";
}

abbrev agent : Agent Calls
agent = record { world = []; node_info = node.user_agent []; started = false; notices = [] }

abbrev pool_update : PoolUpdate
pool_update = record {
  balance = none;
  invalid_peers = [];
  active_peers = "enode://a@2.2.2.2" ∷ "enode://b@4.4.4.4" ∷ [];
  latest_block_number = 9;
}

abbrev node_peers : List PeerInfo
node_peers = peer_of "a" "2.2.2.2" ∷ peer_of "b" "3.3.3.3" ∷ []

to_disconnect_example :
    to_disconnect settings node_peers pool_update
    ≡ map enode_uri (reject (listed reader pool_update.active_peers) node_peers)
to_disconnect_example = to_disconnect_lem settings node_peers pool_update

second_dropped : to_disconnect settings node_peers pool_update ≡ "enode://b@3.3.3.3" ∷ []
unfolding to_disconnect is_listed parse_node_uri with_scheme enode_uri get set node_id remote_host
second_dropped = refl

-- A stop ends the loop without an error, whatever follows.
stopped_after_update :
    (serve node pool settings (Wake.tick ∷ Wake.stop ∷ Wake.tick ∷ []) agent).0 ≡ some (ok tt)
unfolding serve update_peers to_disconnect is_listed parse_node_uri with_scheme node_id remote_host
    get set ◌-ℤ◌ is_error_code enode_uri
stopped_after_update = refl

-- The peer at another host is dropped, and that the pool has no more peers is no failure.
updated : (update_peers node pool settings agent).0 ≡ ok tt
unfolding update_peers ◌-ℤ◌ is_error_code is_listed parse_node_uri with_scheme enode_uri get set
    node_id remote_host
updated = refl

untrusted : (update_peers node pool settings agent).1.world ≡ "b" ∷ "untrust" ∷ []
unfolding update_peers ◌-ℤ◌ is_error_code is_listed parse_node_uri with_scheme enode_uri get set
    node_id remote_host
untrusted = refl
