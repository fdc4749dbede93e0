-- ===== src/Tests/Names.antt =====
-- Names of kinds and networks: instances.
use vipnode.Base.{String, ◌≡◌, refl, true, false, List, [], ◌++◌}
use vipnode.Base.Exec.{ok}
use vipnode.Ethnode.Clients.{RpcClient, detect_client}
use vipnode.Ethnode.{UserAgent, NodeKind}
use vipnode.Int.{pos}

-- A client that keeps the names of the peers in its calls.
abbrev client : RpcClient (List String)
client = record {
  call_any = λ method args w. (ok tt, args ++ w);
  call_text = λ method w. (ok "Parity/v2", w);
  call_peers = λ method w. (ok [], w);
  call_parity_peers = λ method w. (ok [], w);
  call_node_info = λ method w. (ok "enode://self", w);
  parse_uint = λ s. ok 0;
  atoi = λ s. ok (pos 1);
  parse_int32 = λ s. ok (pos 1);
  parity_name = λ s. ok s;
}

abbrev agent : UserAgent
agent = record {
  version = "";
  eth_protocol = "";
  kind = NodeKind.geth;
  network = pos 1;
  is_full_node = true;
}

-- A parity node that speaks protocol 1 is a light one.
light_parity :
    (detect_client client []).0
    ≡ ok (record {
      version = "Parity/v2";
      eth_protocol = "Parity/v2";
      kind = NodeKind.parity;
      network = pos 1;
      is_full_node = false;
    })
unfolding detect_client
light_parity = refl
