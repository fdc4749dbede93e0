-- ===== src/Memory/Nodes.antt =====
-- The nodes of pool/store/memory/memory.go: registration, active hosts, and statistics.
pub mod Hosts
pub mod Counts
use vipnode.Base.{
  ◌||◌, String, ◌≡◌, Bool, true, false, not, ◌&&◌, Option, none, some, List, [], ◌∷◌, ◌==◌,
  if◌then◌else◌,
}
use vipnode.Base.Exec.{Exec, Result, ok, err, unregistered_node, malformed_node, panic}
use vipnode.Int.{ℤ, pos, ◌-ℤ◌, ltb_ℤ, eqb_ℤ}
use vipnode.Dict.{get, set, remove, values}
use vipnode.Clock.{Time, after}
use vipnode.Store.{Node, Balance, expire_interval}
use vipnode.Store.Stats.{Stats, no_stats, count_node, count_balance}
use vipnode.Memory.State.{MemNode, MemoryStore}

unfoldable pub get_node : String → Exec MemoryStore Node
get_node id s = elim (get id s.nodes) [
  | none ↦ (err unregistered_node, s)
  | some n ↦ (ok n.node, s)
]

-- The peers of an earlier registration are dropped: `memNode{Node: n}` has none.
unfoldable pub set_node : Node → Exec MemoryStore (Unit {0})
set_node n s =
    if n.id == ""
    then (err malformed_node, s)
    else (ok tt, record s { nodes = set n.id (record { node = n; peers = [] }) s.nodes })

unfoldable pub remove_node : String → Exec MemoryStore (Unit {0})
remove_node id s = (ok tt, record s { nodes = remove id s.nodes })

-- The three `continue` tests of `ActiveHosts`, with `deadline` for `seenSince`.
unfoldable pub is_candidate : Time → String → Node → Bool
is_candidate deadline kind n =
    n.is_host && not (not (kind == "") && not (n.kind == kind)) && after n.last_seen deadline

-- The loop of `ActiveHosts`; it breaks when `limit`, counted down, is 0.
unfoldable pub scan_hosts : Time → String → List MemNode → ℤ → List Node
scan_hosts deadline kind [] limit = []
scan_hosts deadline kind (n ∷ ns) limit =
    let skip = scan_hosts deadline kind ns limit in
    let rest = scan_hosts deadline kind ns (limit -ℤ pos 1) in
    if not (is_candidate deadline kind n.node)
    then skip
    else if eqb_ℤ (limit -ℤ pos 1) (pos 0)
    then n.node ∷ []
    else n.node ∷ rest

-- `make([]store.Node, 0, limit)` panics at a negative limit, and at one beyond what the runtime makes.
unfoldable pub active_hosts : Time → String → ℤ → Exec MemoryStore (List Node)
active_hosts now kind limit s =
    if ltb_ℤ limit (pos 0) || ltb_ℤ (pos s.room) limit
    then (err (panic "makeslice: cap out of range"), s)
    else (ok (scan_hosts (now -ℤ pos expire_interval) kind (values s.nodes) limit), s)

-- The three loops of `Stats`.
unfoldable pub count_nodes : Time → List MemNode → Stats → Stats
count_nodes now [] stats = stats
count_nodes now (n ∷ ns) stats = count_nodes now ns (count_node now stats n.node)

unfoldable pub count_balances : List Balance → Stats → Stats
count_balances [] stats = stats
count_balances (b ∷ bs) stats = count_balances bs (count_balance stats b)

unfoldable pub get_stats : Time → Exec MemoryStore Stats
get_stats now s = (
  ok (
      count_balances (values s.trials)
        (count_balances (values s.balances) (count_nodes now (values s.nodes) no_stats))),
  s,
)
