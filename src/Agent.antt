-- ===== src/Agent.antt =====
-- agent/agent.go: the process beside a node that keeps it registered with a pool. The node and the
-- pool are interfaces; the world `W` is what their calls read and write.
pub mod Strict
pub mod Serve
use text.Mathlib.Text.{starts_with}
use vipnode.Base.{
  ℕ, String, Bool, true, false, not, ◌&&◌, Option, none, some, List, [], ◌∷◌, ◌++◌, length, ◌==◌,
  if◌then◌else◌,
}
use vipnode.Base.Exec.{
  Exec, Result, ok, err, Error, rpc_error, already_started, no_peers, agent_pool_failed,
  disconnect_failed, pure, raise, ◌>>=◌, ◌>>◌,
}
use vipnode.Int.{ℤ, pos, ◌-ℤ◌, ltb_ℤ}
use vipnode.Dict.{Dict, get, set}
use vipnode.Store.{Balance, Node}
use vipnode.Ethnode.{EthNode, UserAgent, PeerInfo, enode_uri, kind_string}
use vipnode.Ethnode.Enode.{UriReader, NodeUri, parse_node_uri, node_id, remote_host}
use vipnode.Jsonrpc.Errors.{is_error_code, internal_error}
use vipnode.Pool.State.{ConnectRequest, ConnectResponse, UpdateRequest}

-- The response of `Update`; a pool may leave the balance out.
pub record PoolUpdate : Type 0 where
  pub balance : Option Balance
  pub invalid_peers : List String
  pub active_peers : List String
  pub latest_block_number : ℕ

-- The methods of `pool.Pool` that an agent calls.
pub record PoolClient (W : Type 0) : Type 0 where
  pub connect : ConnectRequest → Exec W ConnectResponse
  pub update : UpdateRequest → Exec W PoolUpdate
  pub peer : ℤ → String → Exec W (List Node)

-- What the callbacks of an agent are called with.
pub data Notice : Type 0 where
  balance_notice : Balance → Notice
  message_notice : String → Notice
  block_notice : ℕ → ℕ → Notice

pub record Settings : Type 0 where
  pub node_uri : String
  pub version : String
  pub payout : String
  pub num_hosts : ℤ
  pub strict_peers : Bool
  pub balance_callback : Bool
  pub message_callback : Bool
  pub block_callback : Bool
  -- URLs, and the text of an error
  pub reader : UriReader
  pub error_text : Error → String

pub record Agent (W : Type 0) : Type 0 where
  pub world : W
  pub node_info : UserAgent
  pub started : Bool
  pub notices : List Notice

module _ {W : Type 0} where
  -- A call of the node or of the pool.
  abbrev pub outside : {A : Type 0} → Exec W A → Exec (Agent W) A
  outside m a = let (r, w) = m a.world in (r, record a { world = w })

  abbrev pub notify : Bool → Notice → Exec (Agent W) (Unit {0})
  notify false n a = (ok tt, a)
  notify true n a = (ok tt, record a { notices = n ∷ a.notices })

-- A failure of the pool, as the agent returns it.
abbrev pub pool_failed : {W A : Type 0} → String → Exec W A → Exec W A
pool_failed why m w =
    let (r, w') = m w in (elim r [ ok a ↦ ok a | err x ↦ err (agent_pool_failed x why) ], w')

-- The map from the ID of each active peer to its host; what does not parse is left out.
unfoldable pub active_hosts_of : UriReader → List String → Dict String → Dict String
active_hosts_of reader [] lookup = lookup
active_hosts_of reader (p ∷ rest) lookup =
    active_hosts_of reader rest (elim (parse_node_uri reader p) [
      | err x ↦ lookup
      | ok u ↦ set (node_id u) (remote_host reader u) lookup
    ])

-- Whether a peer of the node is an active one of the pool, at the same host.
unfoldable pub is_listed : UriReader → Dict String → PeerInfo → Bool
is_listed reader lookup p = elim (parse_node_uri reader (enode_uri p)) [
  | err x ↦ false
  | ok u ↦ elim (get (node_id u) lookup) [ none ↦ false | some host ↦ remote_host reader u == host ]
]

unfoldable pub mismatched : UriReader → Dict String → List PeerInfo → List String
mismatched reader lookup [] = []
mismatched reader lookup (p ∷ rest) =
    let others = mismatched reader lookup rest in
    if is_listed reader lookup p then others else enode_uri p ∷ others

-- The peers to disconnect from.
unfoldable pub to_disconnect : Settings → List PeerInfo → PoolUpdate → List String
unfolding active_hosts_of mismatched
to_disconnect settings peers update =
    if settings.strict_peers
    then mismatched settings.reader (active_hosts_of settings.reader update.active_peers []) peers
    else update.invalid_peers

-- The ID of a peer that is known by its URI, or the URI if it does not parse.
unfoldable pub peer_id : UriReader → String → String
peer_id reader p = elim (parse_node_uri reader p) [ err x ↦ p | ok u ↦ node_id u ]

abbrev pub failure : Result (Unit {0}) → List Error
failure (ok _) = []
failure (err x) = x ∷ []

abbrev pub texts : (Error → String) → List Error → List String
texts text [] = []
texts text (x ∷ l) = text x ∷ texts text l

module _ {W : Type 0} (node : EthNode W) (pool : PoolClient W) (settings : Settings) where
  -- The loop over the invalid peers: errors are collected, and none ends it.
  unfoldable pub disconnect_all : List String → W → List Error × W
  unfolding peer_id
  disconnect_all [] w = ([], w)
  disconnect_all (p ∷ rest) w =
      let id = peer_id settings.reader p in
      let (untrusted, w1) = node.remove_trusted_peer id w in
      let (gone, w2) = node.disconnect_peer id w1 in
      let (others, w3) = disconnect_all rest w2 in
      (failure untrusted ++ (failure gone ++ others), w3)

  unfoldable pub disconnect_each : List PeerInfo → Exec W (Unit {0})
  disconnect_each [] = pure tt
  disconnect_each (p ∷ rest) = do node.disconnect_peer p.id; disconnect_each rest

  -- `disconnectPeers`, which nothing calls
  abbrev pub disconnect_peers : Exec W (Unit {0})
  disconnect_peers = do peers ← node.peers; disconnect_each peers

  unfoldable pub connect_all : List Node → Exec W (Unit {0})
  connect_all [] = pure tt
  connect_all (n ∷ rest) = do node.connect_peer n.uri; connect_all rest

  -- The answer of the pool to a request for peers.
  abbrev pub peers_offered : Result (List Node) → Result (List Node)
  peers_offered (ok nodes) = ok nodes
  peers_offered (err x) =
      if is_error_code x (internal_error ∷ [])
      then (if starts_with (settings.error_text x) "no available"
          then err no_peers
          else err no_peers)
      else err (agent_pool_failed x "Failed during pool peer request")

  -- The kind of peers that a node needs: a light node those of its own.
  abbrev pub wanted_kind : UserAgent → String
  wanted_kind info = if info.is_full_node then "" else kind_string info.kind

  -- `AddPeers`
  unfoldable pub add_peers : UserAgent → ℤ → Exec W (Unit {0})
  unfolding connect_all
  add_peers info num w =
      let (r, w') = pool.peer num (wanted_kind info) w in
      elim (peers_offered r) [ err x ↦ (err x, w') | ok nodes ↦ connect_all nodes w' ]

  -- That there are no more peers is no failure.
  abbrev pub tolerate : Result (Unit {0}) → Result (Unit {0})
  tolerate (ok _) = ok tt
  tolerate (err no_peers) = ok tt
  tolerate (err x) = err x

  abbrev pub add_missing : UserAgent → ℤ → Exec W (Unit {0})
  add_missing info missing w =
      if ltb_ℤ (pos 0) missing
      then (let (r, w') = add_peers info missing w in (tolerate r, w'))
      else (ok tt, w)

  abbrev pub report : List Error → Exec (Agent W) (Unit {0})
  report [] = pure tt
  report (x ∷ l) = raise (disconnect_failed (texts settings.error_text (x ∷ l)))

  abbrev pub notify_balance : Option Balance → Exec (Agent W) (Unit {0})
  notify_balance none = pure tt
  notify_balance (some b) = notify settings.balance_callback (balance_notice b)

  abbrev pub drop_peers : List String → Exec (Agent W) (List Error)
  drop_peers l = outside (λ w. let (errors, w') = disconnect_all l w in (ok errors, w'))

  -- `UpdatePeers`
  unfoldable pub update_peers : Exec (Agent W) (Unit {0})
  unfolding disconnect_all add_peers to_disconnect
  update_peers a =
      (do
        peers ← outside node.peers
        block_number ← outside node.block_number
        update ← outside (
            pool_failed "Failed during pool update request"
              (pool.update (record { peers = []; peer_info = peers; block_number = block_number })))
        notify_balance update.balance
        errors ← drop_peers (to_disconnect settings peers update)
        outside (add_missing a.node_info (settings.num_hosts -ℤ pos (length update.active_peers)))
        notify settings.block_callback (block_notice block_number update.latest_block_number)
        report errors)
        a

  -- The request of `Start`. A missing version is that of a development build.
  abbrev pub connect_request : UserAgent → ConnectRequest
  connect_request info = record {
    payout = settings.payout;
    node_uri = settings.node_uri;
    vipnode_version = if settings.version == "" then "dev" else settings.version;
    node_info = info;
  }

  abbrev pub notify_message : String → Exec (Agent W) (Unit {0})
  notify_message message =
      notify (not (message == "") && settings.message_callback) (message_notice message)

  -- The connect request of `Start`; what the node says of itself is kept.
  unfoldable pub register : Exec (Agent W) (Unit {0})
  register a =
      let info = node.user_agent a.world in
      (do
        response ←
            outside (
              pool_failed "Failed during pool connect request"
                (pool.connect (connect_request info)))
        notify_message response.message)
        (record a { node_info = info })

  -- `Start`, without the updates that it leaves running.
  unfoldable pub start : Exec (Agent W) (Unit {0})
  unfolding update_peers register
  start a =
      if a.started
      then (err already_started, a)
      else (do _ ← outside node.enode; register; update_peers) a

  -- `Whitelist`
  unfoldable pub whitelist : String → Exec (Agent W) (Unit {0})
  whitelist id = outside (node.add_trusted_peer id)
