-- ===== src/Pool/Sessions.antt =====
-- Connecting to the pool: `verify`, `connect`, `Connect` and `Host` of pool/service.go.
use vipnode.Base.{[], String, Bool, true, not, ◌&&◌, Option, none, some, ◌==◌, if◌then◌else◌}
use vipnode.Base.Exec.{
  Exec, Result, ok, err, wrong_network, external, pure, raise, raise_if, lift, ◌>>=◌, ◌>>◌,
}
use vipnode.Int.{ℤ, pos, eqb_ℤ}
use vipnode.Clock.{Time}
use vipnode.Store.{Node}
use vipnode.Ethnode.{UserAgent, kind_string, parse_node_kind}
use vipnode.Request
use vipnode.Pool.Uri.{normalize_node_uri}
use vipnode.Pool.State.{
  Setup, Outside, Pool, Service, Arguments, ConnectRequest, ConnectResponse, HostRequest,
  connect_args, host_args, on_store, save_remote, verify_error,
}

module _ {S : Type 0} (setup : Setup S) (out : Outside) where
  -- An error with the method as its context; the state is kept.
  abbrev pub with_method : {A : Type 0} → String → Result A → Result A
  with_method method (ok a) = ok a
  with_method method (err e) = err (verify_error method e)

  -- The nonce is saved only after the signature has passed.
  unfoldable pub verify : Time → String → String → String → ℤ → Arguments → Exec (Pool S) (Unit {0})
  verify now sig method node_id nonce args p =
      elim (Request.verify out.crypto sig method node_id nonce args) [
        | err e ↦ (err (verify_error method e), p)
        | ok _ ↦
            let (r, p') = on_store (setup.store.check_and_save_nonce now node_id nonce) p in
            (with_method method r, p')
      ]

  unfoldable pub kind_of : UserAgent → String
  kind_of ua = let kind = kind_string ua.kind in if kind == "unknown" then "" else kind

  -- The node that `connect` registers, before its URI is known.
  unfoldable pub node_for : Time → String → ConnectRequest → Node
  unfolding kind_of
  node_for now node_id req = record {
    id = node_id;
    uri = "";
    last_seen = now;
    kind = kind_of req.node_info;
    is_host = req.node_info.is_full_node;
    payout = req.payout;
    block_number = 0;
    node_version = req.node_info.version;
    vipnode_version = req.vipnode_version;
  }

  -- The part of `connect` for hosts: without a connection to call back it fails, and the connection
  -- is saved once the URI is known.
  unfoldable pub connect_host : Option Service → ConnectRequest → Node → Exec (Pool S) Node
  connect_host none req node = raise (external "context missing value: service")
  connect_host (some service) req node = do
    uri ← lift (normalize_node_uri out.urls req.node_uri node.id (out.remote_host service) "30303")
    save_remote node.id service
    pure (record node { uri = uri })

  unfoldable pub wrong_network_test : ConnectRequest → Bool
  wrong_network_test req =
      not (eqb_ℤ setup.restrict_network (pos 0))
      && not (eqb_ℤ setup.restrict_network req.node_info.network)

  unfoldable pub response_for : String → ConnectResponse
  response_for node_id = record {
    pool_version = setup.version;
    hosts = [];
    message = elim setup.client_messager [ none ↦ "" | some messager ↦ messager node_id ];
  }

  -- `connect`; `service` is the connection of the request, if its context has one.
  unfoldable pub connect :
      Time → Option Service → String → ConnectRequest → Exec (Pool S) ConnectResponse
  unfolding connect_host
  connect now service node_id req = do
    raise_if (wrong_network_test req) (wrong_network setup.restrict_network)
    let new = node_for now node_id req
    node ← if new.is_host then connect_host service req new else pure new
    on_store (setup.store.set_node node)
    on_store (setup.manager.on_client node)
    pure (response_for node_id)

  -- `Connect`
  unfoldable pub connect_signed :
      Time → Option Service → String → String → ℤ → ConnectRequest → Exec (Pool S) ConnectResponse
  connect_signed now service sig node_id nonce req = do
    verify now sig "vipnode_connect" node_id nonce (connect_args req)
    connect now service node_id req

  abbrev pub agent_of : String → Bool → UserAgent
  agent_of kind is_full_node = record {
    version = "";
    eth_protocol = "";
    kind = parse_node_kind kind;
    network = pos 0;
    is_full_node = is_full_node;
  }

  -- `Host`; the response is the version of the pool.
  unfoldable pub host :
      Time → Option Service → String → String → ℤ → HostRequest → Exec (Pool S) String
  host now service sig node_id nonce req = do
    verify now sig "vipnode_host" node_id nonce (host_args req)
    resp ← connect now service node_id (record {
      vipnode_version = "";
      node_info = agent_of req.kind true;
      node_uri = req.node_uri;
      payout = req.payout;
    })
    pure resp.pool_version
