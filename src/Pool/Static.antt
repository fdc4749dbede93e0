-- ===== src/Pool/Static.antt =====
-- pool/staticpool.go: a pool of fixed hosts.
use vipnode.Base.{
  eq_iff, ◌==◌, if◌then◌else◌, ℕ, false, String, ◌≡◌, refl, Option, some, List, [], ◌∷◌, map, arith,
  ap, ◌∙◌,
}
use vipnode.Base.Exec.{continue, Exec, Result, ok, err, external, lift, raise, gets, ◌>>=◌}
use vipnode.Dict.{Dict, get, set, values, get-set, Distinct, set-Distinct}
use vipnode.Clock.{zero_time}
use vipnode.Store.{Node}
use vipnode.Ethnode.Enode.{UriReader, NodeUri, parse_node_uri, node_id}
use vipnode.Pool.State.{ConnectResponse, ClientResponse, UpdateRequest}
use vipnode.Pool.Updates.{uri_of}

pub record StaticPool : Type 0 where
  pub node_store : Dict Node
  pub latest_block_number : ℕ

-- A `store.Node` of which only the ID and the URI are set.
abbrev pub static_node : String → String → Node
static_node id uri = record {
  id = id;
  uri = uri;
  last_seen = zero_time;
  kind = "";
  is_host = false;
  payout = "";
  block_number = 0;
  node_version = "";
  vipnode_version = "";
}

-- The write of `AddNode`.
abbrev pub save_static : String → NodeUri → Exec StaticPool (Unit {0})
save_static uri u s =
    (ok tt, record s { node_store = set (node_id u) (static_node (node_id u) uri) s.node_store })

-- `AddNode`
unfoldable pub add_static : UriReader → String → Exec StaticPool (Unit {0})
add_static reader uri = lift (parse_node_uri reader uri) >>= save_static uri

-- `nodes`
unfoldable pub static_nodes : StaticPool → List Node
static_nodes s = values s.node_store

-- `Connect`
unfoldable pub static_connect : Exec StaticPool ConnectResponse
static_connect =
    gets λ s. record { pool_version = "staticpool"; hosts = static_nodes s; message = "" }

-- `Host`, whose response is empty, and `Disconnect`
abbrev pub static_host : Exec StaticPool (Unit {0})
static_host s = (ok tt, s)

abbrev pub static_disconnect : Exec StaticPool (Unit {0})
static_disconnect s = (ok tt, s)

-- `Client`
unfoldable pub static_client : Exec StaticPool ClientResponse
static_client = gets λ s. record { hosts = static_nodes s; pool_version = ""; message = "" }

-- `Peer`
unfoldable pub static_peer : Exec StaticPool (List Node)
static_peer = gets static_nodes

-- `Update`, whose response has no balance.
unfoldable pub static_update : UpdateRequest → Exec StaticPool (List String × ℕ)
unfolding static_nodes
static_update req s = (
  ok (map uri_of (static_nodes s), req.block_number),
  record s { latest_block_number = req.block_number },
)

-- `Withdraw`
unfoldable pub static_withdraw : Exec StaticPool (Unit {0})
static_withdraw = raise (external "not implemented")

-- Each map key is the ID of its node, and stands once.
pub record IsStatic (s : StaticPool) : Type 0 where
  pub distinct : Distinct s.node_store
  pub self : (id : String) (n : Node) → get id s.node_store ≡ some n → n.id ≡ id

unfoldable pub add_all : UriReader → List String → StaticPool → StaticPool
add_all reader [] s = s
add_all reader (uri ∷ uris) s = add_all reader uris (add_static reader uri s).1

save_static-IsStatic :
    (uri : String) (r : Result NodeUri) (s : StaticPool)
    → IsStatic s
    → IsStatic (continue r (save_static uri) s).1
save_static-IsStatic uri (ok u) s v = record {
  distinct = set-Distinct (node_id u) (static_node (node_id u) uri) s.node_store v.distinct;
  self = λ id n h. ground (
    arith,
    get-set (node_id u) id (static_node (node_id u) uri) s.node_store,
    eq_iff (node_id u) id,
    v.self id n,
  );
}
save_static-IsStatic uri (err x) s v = v

-- The node under an ID after a URI is added.
abbrev pub added : String → String → Result NodeUri → Option Node → Option Node
added uri id (err e) old = old
added uri id (ok u) old = if node_id u == id then some (static_node (node_id u) uri) else old

-- The node under an ID after some URIs are added: that of the last one with this ID, or the old one.
abbrev pub last_added : UriReader → String → List String → Option Node → Option Node
last_added reader id [] old = old
last_added reader id (uri ∷ uris) old =
    last_added reader id uris (added uri id (parse_node_uri reader uri) old)

get-save_static :
    (uri id : String) (r : Result NodeUri) (s : StaticPool)
    → get id (continue r (save_static uri) s).1.node_store ≡ added uri id r (get id s.node_store)
get-save_static uri id (ok u) s = get-set (node_id u) id (static_node (node_id u) uri) s.node_store
get-save_static uri id (err x) s = refl

-- After any list of URIs is added, good or bad, to a pool whose nodes stand under their own IDs, each
-- once, this still holds, and each ID has the node of the last URI with this ID; a URI that is not an enode changes nothing.
pub add_all_lem :
    (reader : UriReader) (uris : List String) (s : StaticPool)
    → IsStatic s
    → IsStatic (add_all reader uris s)
      × ((id : String)
          → get id (add_all reader uris s).node_store
            ≡ last_added reader id uris (get id s.node_store))
unfolding add_all add_static
add_all_lem reader [] s v = (v, λ id. refl)
add_all_lem reader (uri ∷ uris) s v =
    let (valid, found) =
      add_all_lem reader uris (add_static reader uri s).1
        (save_static-IsStatic uri (parse_node_uri reader uri) s v) in
    (
      valid,
      λ id.
          found id
          ∙ ap (last_added reader id uris) (get-save_static uri id (parse_node_uri reader uri) s),
    )
