-- ===== src/Pool/Peering.antt =====
-- Hosts for a node: `requestHosts`, `Peer` and `Client` of pool/service.go.
pub mod Accepted
pub mod Memory
use vipnode.Base.{
  ℕ, zero, suc, ◌+◌, String, Bool, true, false, not, ◌&&◌, Option, none, some, List, [], ◌∷◌, ◌++◌,
  map, length, ◌==◌, if◌then◌else◌, ltb,
}
use vipnode.Base.Exec.{
  Exec, Result, ok, err, Error, no_host_nodes, remote_host_errors, pure, raise, gets, lift,
  continue, ◌>>=◌, ◌>>◌,
}
use vipnode.Int.{ℤ, pos, ◌+ℤ◌, ltb_ℤ, eqb_ℤ}
use vipnode.Dict.{Dict, get, set}
use vipnode.Clock.{Time}
use vipnode.Store.{Node}
use vipnode.Pool.State.{
  Setup, Outside, Pool, Service, HostService, RemoteCall, ClientRequest, ClientResponse,
  client_args, on_store,
}
use vipnode.Pool.Sessions.{verify, connect, agent_of}

-- `defaultRequestNumHosts`
abbrev pub default_request_num_hosts : ℤ
default_request_num_hosts = pos 3

-- The set `skipPeers`: the node itself and its peers.
unfoldable pub skip_peers : List Node → Dict (Unit {0}) → Dict (Unit {0})
skip_peers [] skip = skip
skip_peers (peer ∷ peers) skip = skip_peers peers (set peer.id tt skip)

-- The candidates with a connection that are not skipped.
unfoldable pub with_remotes : Dict (Unit {0}) → Dict Service → List Node → List HostService
with_remotes skip hosts [] = []
with_remotes skip hosts (node ∷ nodes) =
    let rest = with_remotes skip hosts nodes in
    elim (get node.id skip) [
      | some _ ↦ rest
      | none ↦ elim (get node.id hosts) [ none ↦ rest | some remote ↦ (node, remote) ∷ rest ]
    ]

-- The call that answers next, by its position among those that still run, and the others.
abbrev pub pick : {A : Type 0} → ℕ → A → List A → A × List A
pick zero x xs = (x, xs)
pick (suc k) x [] = (x, [])
pick (suc k) x (y ∷ ys) = let (z, rest) = pick k y ys in (z, x ∷ rest)

unfoldable pub arrivals : {A : Type 0} → List ℕ → List A → List A
arrivals [] xs = xs
arrivals (k ∷ ks) [] = []
arrivals (k ∷ ks) (x ∷ xs) = let (y, rest) = pick k x xs in y ∷ arrivals ks rest

module _ (out : Outside) where
  abbrev pub whitelist_call : String → HostService → RemoteCall
  whitelist_call node_id (node, remote) = (remote, "vipnode_whitelist", node_id)

  -- The loop over the answers: the hosts that accept, and the errors.
  unfoldable pub collect : String → List HostService → List Node × List String
  collect node_id [] = ([], [])
  collect node_id (h ∷ hs) =
      let (accepted, errors) = collect node_id hs in
      elim (out.answer (whitelist_call node_id h)) [
        | none ↦ (h.0 ∷ accepted, errors)
        | some e ↦ (accepted, e ∷ errors)
      ]

-- The end of `requestHosts`: some accepted hosts, or the errors of the calls, or no hosts at all.
unfoldable pub conclude : ℕ → List Node × List String → Result (List Node)
conclude tried (n ∷ ns, errors) = ok (n ∷ ns)
conclude tried ([], e ∷ errors) = err (remote_host_errors "vipnode_whitelist" (e ∷ errors))
conclude tried ([], []) = err (no_host_nodes tried)

module _ {S : Type 0} (setup : Setup S) (out : Outside) where
  unfoldable pub cap_num : ℤ → ℤ
  cap_num num =
      if ltb_ℤ (pos 0) setup.max_request_hosts && ltb_ℤ setup.max_request_hosts num
      then setup.max_request_hosts
      else num

  -- The calls to the candidates, and what comes of them.
  unfoldable pub whitelist : String → Dict (Unit {0}) → List Node → Exec (Pool S) (List Node)
  whitelist node_id skip nodes p =
      let remotes = with_remotes skip p.remote_hosts nodes in
      (
        conclude (length nodes) (collect out node_id (arrivals out.schedule remotes)),
        record p { calls = p.calls ++ map (whitelist_call out node_id) remotes },
      )

  -- Testing may bypass the calls.
  unfoldable pub choose : String → Dict (Unit {0}) → List Node → Exec (Pool S) (List Node)
  choose node_id skip nodes =
      if setup.skip_whitelist then pure nodes else whitelist node_id skip nodes

  -- `requestHosts` once the peers are known: as many hosts more are listed as may be skipped.
  unfoldable pub list_hosts : Time → String → ℤ → String → List Node → Exec (Pool S) (List Node)
  list_hosts now node_id num kind peers =
      let skip = skip_peers peers ((node_id, tt) ∷ []) in
      on_store (setup.store.active_hosts now kind (cap_num num +ℤ pos (length skip)))
      >>= choose node_id skip

  -- `requestHosts`
  unfoldable pub request_hosts : Time → String → ℤ → String → Exec (Pool S) (List Node)
  request_hosts now node_id num kind =
      if eqb_ℤ (cap_num num) (pos 0)
      then pure []
      else on_store (setup.store.node_peers node_id) >>= list_hosts now node_id num kind

  -- `Peer`; its signature and nonce are not looked at.
  unfoldable pub peer : Time → String → String → ℤ → ℤ → String → Exec (Pool S) (List Node)
  peer now sig node_id nonce num kind = request_hosts now node_id num kind

  -- `Client`
  unfoldable pub client :
      Time → Option Service → String → String → ℤ → ClientRequest → Exec (Pool S) ClientResponse
  client now service sig node_id nonce req = do
    verify setup out now sig "vipnode_client" node_id nonce (client_args req)
    resp ← connect setup out now service node_id (record {
      vipnode_version = "";
      node_info = agent_of setup out req.kind false;
      node_uri = "";
      payout = "";
    })
    let num = if ltb_ℤ (pos 0) req.num_hosts then req.num_hosts else default_request_num_hosts
    hosts ← request_hosts now node_id num req.kind
    pure (record { hosts = hosts; pool_version = resp.pool_version; message = resp.message })
