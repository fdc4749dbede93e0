-- ===== src/Pool/Updates.antt =====
-- The keep-alive of a node: `Update` and `disconnectPeers` of pool/service.go.
pub mod Conserve
use vipnode.Base.{ℕ, String, none, some, List, [], ◌∷◌, ◌++◌, map}
use vipnode.Base.Exec.{Exec, Result, ok, err, low_balance, pure, lift, ◌>>=◌, ◌>>◌}
use vipnode.Int.{ℤ}
use vipnode.Dict.{Dict, get}
use vipnode.Clock.{Time}
use vipnode.Store.{Node, Balance}
use vipnode.Ethnode.{peer_ids}
use vipnode.Pool.State.{
  Setup, Outside, Pool, Service, RemoteCall, UpdateRequest, UpdateResponse, update_args,
  old_update_args, on_store,
}
use vipnode.Pool.Sessions.{verify}

-- The calls of `disconnectPeers`, one to each peer that has a connection.
unfoldable pub disconnect_calls : String → Dict Service → List Node → List RemoteCall
disconnect_calls node_id hosts [] = []
disconnect_calls node_id hosts (peer ∷ peers) =
    let rest = disconnect_calls node_id hosts peers in
    elim (get peer.id hosts) [
      | none ↦ rest
      | some remote ↦ (remote, "vipnode_disconnect", node_id) ∷ rest
    ]

abbrev pub uri_of : Node → String
uri_of n = n.uri

module _ {S : Type 0} (setup : Setup S) (out : Outside) where
  -- `disconnectPeers`; its error is only logged.
  unfoldable pub disconnect_peers : String → List Node → Pool S → Pool S
  disconnect_peers node_id peers p = record p {
    calls = p.calls ++ disconnect_calls node_id p.remote_hosts peers;
  }

  -- The present signature, and if that fails the old one; the error is that of the first.
  unfoldable pub verify_update :
      Time → String → String → ℤ → UpdateRequest → Exec (Pool S) (Unit {0})
  verify_update now sig node_id nonce req p =
      let (r, p') = verify setup out now sig "vipnode_update" node_id nonce (update_args req) p in
      elim r [
        | ok _ ↦ (ok tt, p')
        | err e ↦
            let old =
              old_update_args (record { peers = req.peers; block_number = req.block_number }) in
            let (r', p'') = verify setup out now sig "vipnode_update" node_id nonce old p' in
            elim r' [ ok _ ↦ (ok tt, p'') | err _ ↦ (err e, p'') ]
      ]

  unfoldable pub latest_block : Result ℕ
  latest_block = elim setup.block_number_provider [
    | none ↦ ok 0
    | some provider ↦ provider setup.restrict_network
  ]

  -- What becomes of the answer of the balance manager: at a low balance the node's active peers are
  -- told to disconnect from it.
  unfoldable pub end_update : String → List Node → Result Balance → Exec (Pool S) Balance
  end_update node_id active (ok balance) p = (ok balance, p)
  end_update node_id active (err (low_balance current minimum)) p =
      (err (low_balance current minimum), disconnect_peers node_id active p)
  end_update node_id active (err e) p = (err e, p)

  -- The call of the balance manager.
  unfoldable pub settle_update : Time → String → Node → List Node → Exec (Pool S) Balance
  settle_update now node_id before active p =
      let (r, p') = on_store (setup.manager.on_update now before active) p in
      end_update node_id active r p'

  -- `Update`; the balance manager sees the node as it was before the update.
  unfoldable pub update : Time → String → String → ℤ → UpdateRequest → Exec (Pool S) UpdateResponse
  update now sig node_id nonce req = do
    verify_update now sig node_id nonce req
    before ← on_store (setup.store.get_node node_id)
    inactive ←
        on_store
          (setup.store.update_node_peers now node_id (peer_ids req.peer_info) req.block_number)
    active ← on_store (setup.store.node_peers node_id)
    latest ← lift latest_block
    balance ← settle_update now node_id before active
    pure (record {
      balance = balance;
      invalid_peers = inactive;
      active_peers = map uri_of active;
      latest_block_number = latest;
    })
