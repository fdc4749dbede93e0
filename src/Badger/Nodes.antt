-- ===== src/Badger/Nodes.antt =====
-- The nodes of pool/store/badger/badger.go, and `Stats`.
use vipnode.Base.{String, none, some, List, [], ◌∷◌, ◌||◌, take, length, ◌==◌, if◌then◌else◌}
use vipnode.Base.Exec.{Exec, unregistered_node, malformed_node, pure, raise, ◌>>=◌}
use vipnode.Int.{ℤ, pos, ◌-ℤ◌, leb_ℤ, ltb_ℤ, pos_part}
use vipnode.Clock.{Time}
use vipnode.Store.{Node, expire_interval}
use vipnode.Store.Stats.{Stats, no_stats, count_node}
use vipnode.Memory.Nodes.{is_candidate, count_balances}
use vipnode.Badger.{Engine, find_item, set_item, loop_items, reading, view, transaction}
use vipnode.Badger.Keys.{print_key, prefix, Kind}

abbrev pub values_of : {A : Type 0} → List (String × A) → List A
values_of [] = []
values_of ((k, a) ∷ rest) = a ∷ values_of rest

-- The tests of `ActiveHosts`, which are those of the in-memory store.
unfoldable pub select_hosts : Time → String → List Node → List Node
select_hosts deadline kind [] = []
select_hosts deadline kind (n ∷ ns) =
    let rest = select_hosts deadline kind ns in
    if is_candidate deadline kind n then n ∷ rest else rest

unfoldable pub count_all : Time → List Node → Stats → Stats
count_all now [] stats = stats
count_all now (n ∷ ns) stats = count_all now ns (count_node now stats n)

module _ {B T : Type 0} (e : Engine B T) where
  unfoldable pub get_node : String → Exec T Node
  get_node id = view e (do
    found ← reading e (find_item e e.nodes (print_key Kind.node id))
    elim found [ none ↦ raise unregistered_node | some n ↦ pure n ])

  -- Entries of peers from an earlier registration are kept.
  unfoldable pub set_node : Node → Exec T (Unit {0})
  set_node n =
      if n.id == ""
      then raise malformed_node
      else transaction e (set_item e e.nodes (print_key Kind.node n.id) n)

  unfoldable pub all_nodes : Exec T (List Node)
  all_nodes =
      view e
        (do entries ← reading e (loop_items e e.nodes (prefix Kind.node)); pure (values_of entries))

  -- At most `limit` of the hosts, shuffled if there are as many; a limit of 0 or less is none.
  abbrev pub cut_hosts : ℤ → List Node → List Node
  cut_hosts limit hosts =
      if leb_ℤ limit (pos 0) || ltb_ℤ (pos (length hosts)) limit
      then hosts
      else take (pos_part limit) (e.shuffle hosts)

  unfoldable pub active_hosts : Time → String → ℤ → Exec T (List Node)
  unfolding select_hosts
  active_hosts now kind limit = view e (do
    entries ← reading e (loop_items e e.nodes (prefix Kind.node))
    pure (cut_hosts limit (select_hosts (now -ℤ pos expire_interval) kind (values_of entries))))

  unfoldable pub get_stats : Time → Exec T Stats
  unfolding count_all
  get_stats now = view e (do
    nodes ← reading e (loop_items e e.nodes (prefix Kind.node))
    balances ← reading e (loop_items e e.balances (prefix Kind.balance))
    trials ← reading e (loop_items e e.balances (prefix Kind.trial))
    pure (
        count_balances (values_of trials)
          (count_balances (values_of balances) (count_all now (values_of nodes) no_stats))))
