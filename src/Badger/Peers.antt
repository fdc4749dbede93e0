-- ===== src/Badger/Peers.antt =====
-- The peers of pool/store/badger/badger.go: `NodePeers` and `UpdateNodePeers`.
use vipnode.Base.{ℕ, String, Option, none, some, List, [], ◌∷◌, if◌then◌else◌}
use vipnode.Base.Exec.{Exec, unregistered_node, pure, raise, gets, ◌>>=◌, ◌>>◌}
use vipnode.Int.{pos, ◌-ℤ◌}
use vipnode.Dict.{Dict, set}
use vipnode.Clock.{Time}
use vipnode.Store.{Node, expire_interval}
use vipnode.Memory.Peers.{expire}
use vipnode.Badger.{Engine, find_item, set_item, has_key, reading, view, transaction}
use vipnode.Badger.Keys.{print_key, Kind}

abbrev pub or_no_peers : Option (Dict Time) → Dict Time
or_no_peers none = []
or_no_peers (some known) = known

module _ {B T : Type 0} (e : Engine B T) where
  -- The loop of `NodePeers`: peers that are no longer known are left out.
  unfoldable pub peer_nodes : Dict Time → Exec T (List Node)
  peer_nodes [] = pure []
  peer_nodes ((id, seen) ∷ rest) = do
    found ← reading e (find_item e e.nodes (print_key Kind.node id))
    others ← peer_nodes rest
    pure (elim found [ none ↦ others | some n ↦ n ∷ others ])

  unfoldable pub node_peers : String → Exec T (List Node)
  unfolding peer_nodes
  node_peers id = view e (do
    found ← reading e (find_item e e.peers (print_key Kind.peers id))
    registered ← gets (has_key e (print_key Kind.node id))
    elim found [
      | some known ↦ peer_nodes known
      | none ↦ if registered then pure [] else raise unregistered_node
    ])

  -- The first loop of `UpdateNodePeers`. The node itself has been written before, so that as its own
  -- peer it was seen now.
  unfoldable pub refresh : List String → Dict Time → Exec T (Dict Time)
  refresh [] known = pure known
  refresh (peer ∷ peers) known = do
    found ← reading e (find_item e e.nodes (print_key Kind.node peer))
    refresh peers (elim found [ none ↦ known | some n ↦ set peer n.last_seen known ])

  unfoldable pub update_node_peers : Time → String → List String → ℕ → Exec T (List String)
  unfolding refresh
  update_node_peers now id peers block_number = transaction e (do
    found ← reading e (find_item e e.nodes (print_key Kind.node id))
    node ← elim found [ none ↦ raise unregistered_node | some n ↦ pure n ]
    set_item e e.nodes (print_key Kind.node id)
        (record node { last_seen = now; block_number = block_number })
    old ← reading e (find_item e e.peers (print_key Kind.peers id))
    known ← refresh peers (or_no_peers old)
    let (kept, inactive) = expire (now -ℤ pos expire_interval) known (known, [])
    set_item e e.peers (print_key Kind.peers id) kept
    pure inactive)
