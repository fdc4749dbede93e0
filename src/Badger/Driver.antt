-- ===== src/Badger/Driver.antt =====
-- The badger store as a driver of the interface `Store`.
use vipnode.Store.Driver.{Driver}
use vipnode.Badger.{Engine}
use vipnode.Badger.Nonces.{check_and_save_nonce}
use vipnode.Badger.Balances.{
  get_node_balance, add_node_balance, get_account_balance, add_account_balance, add_account_node,
  is_account_node, get_account_nodes,
}
use vipnode.Badger.Nodes.{get_node, set_node, active_hosts, get_stats}
use vipnode.Badger.Peers.{node_peers, update_node_peers}

abbrev pub badger_driver : {B T : Type 0} → Engine B T → Driver T
badger_driver e = record {
  check_and_save_nonce = check_and_save_nonce e;
  get_node = get_node e;
  set_node = set_node e;
  active_hosts = active_hosts e;
  node_peers = node_peers e;
  update_node_peers = update_node_peers e;
  get_node_balance = get_node_balance e;
  add_node_balance = add_node_balance e;
  get_account_balance = get_account_balance e;
  add_account_balance = add_account_balance e;
  add_account_node = add_account_node e;
  is_account_node = is_account_node e;
  get_account_nodes = get_account_nodes e;
  stats = get_stats e;
}
