-- ===== src/Tests/Updates.antt =====
-- The keep-alive: runs and instances.
use vipnode.Base.{◌≡◌, refl, none, [], ◌∷◌, arith, eq_iff, ◌*◌}
use vipnode.Base.Exec.{ok}
use vipnode.Int.{pos, negsuc, ◌+ℤ◌, ◌-ℤ◌, ◌*ℤ◌, ◌/ℤ◌}
use vipnode.Dict.{get, set, remove}
use vipnode.Clock.{after, second, sub_time, zero_time}
use vipnode.Ethnode.{PeerInfo, lower, enode_id, peer_ids}
use vipnode.Request
use vipnode.Memory.State.{IsValid, total_credit}
use vipnode.Memory.Nonces.{check_and_save_nonce}
use vipnode.Memory.Nodes.{get_node}
use vipnode.Memory.Peers.{peer_nodes, node_peers, update_node_peers, refresh, expire}
use vipnode.Memory.Balances.{get_node_balance, add_node_balance}
use vipnode.Balance.{
  PayPerInterval, interval_credit, on_update, charge, settle, credit_peers, too_low, charge_node,
  pay_per_interval,
}
use vipnode.Pool.State.{Outside, UpdateRequest, UpdateResponse}
use vipnode.Pool.Sessions.{verify}
use vipnode.Pool.Updates.{verify_update, latest_block, settle_update, end_update, update}
use vipnode.Pool.Updates.Conserve.{charging, update-total}
use vipnode.Tests.Fixtures.{now, state}
use vipnode.Tests.Pools.{crypto_of, outside, setup, pool}

abbrev price : PayPerInterval
price = record { interval = pos (60 * second); credit_per_interval = pos 1000; min_balance = none }

abbrev signed_by_client : Outside
signed_by_client = record outside { crypto = crypto_of "client" }

abbrev near_peer : PeerInfo
near_peer = record { id = "near"; enode = ""; remote_address = "" }

abbrev request : UpdateRequest
request = record { peers = []; peer_info = near_peer ∷ []; block_number = 8 }

abbrev response : UpdateResponse
response = record {
  balance = record {
    account = "";
    deposit = pos 0;
    credit = negsuc 1002;
    next_withdraw = zero_time;
  };
  invalid_peers = "far" ∷ [];
  active_peers = "near" ∷ [];
  latest_block_number = 0;
}

-- A minute with one active peer costs the client 1000.
pays_minute :
    (update (charging setup price) signed_by_client now "0x" "client" now request pool).0
    ≡ ok response
unfolding update verify_update latest_block settle_update end_update verify pay_per_interval
    Request.verify Request.verify_address Request.without_prefix Request.legacy_v
    Request.address_hash Request.assemble lower enode_id peer_ids check_and_save_nonce get_node
    peer_nodes node_peers update_node_peers refresh expire on_update charge settle credit_peers
    too_low charge_node interval_credit get_node_balance add_node_balance get set remove after
    sub_time ◌+ℤ◌ ◌-ℤ◌ ◌*ℤ◌ ◌/ℤ◌
pays_minute = refl

state-IsValid : IsValid state
unfolding get
state-IsValid = record {
  balances = (refl, tt);
  nodes = (refl, (refl, (refl, tt)));
  accounts = tt;
  trials = (refl, tt);
  nonces = tt;
  peers = λ id n h. ground (arith, eq_iff "near" id, eq_iff "far" id, eq_iff "client" id);
  self = λ id n h. ground (arith, eq_iff "near" id, eq_iff "far" id, eq_iff "client" id);
}

update-total_example :
    total_credit
      (update (charging setup price) signed_by_client now "0x" "client" now request pool).1.stored
    ≡ total_credit state
update-total_example =
    update-total setup signed_by_client price now "0x" "client" now request pool response
      state-IsValid pays_minute
