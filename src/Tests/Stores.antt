-- ===== src/Tests/Stores.antt =====
-- The in-memory store: runs and instances.
use vipnode.Base.{
  leb, if◌then◌else◌, ℕ, suc, take, String, ◌≡◌, ◌≢◌, refl, none, some, List, [], ◌∷◌,
}
use vipnode.Base.Exec.{ok, err, panic}
use vipnode.Int.{pos, negsuc, ◌+ℤ◌, ◌-ℤ◌}
use vipnode.Dict.{get, set, remove, values}
use vipnode.Store.{expire_interval, no_balance}
use vipnode.Memory.State.{MemNode, new, IsValid, total_credit}
use vipnode.Memory.Nonces.{check_and_save_nonce}
use vipnode.Store.Stats.{Stats}
use vipnode.Memory.Balances.{get_node_balance, add_node_balance, add_account_node, add_credit}
use vipnode.Memory.Nodes.{set_node, remove_node, active_hosts, get_stats}
use vipnode.Memory.Nodes.Hosts.{active_hosts_lem, candidates}
use vipnode.Memory.Nodes.Counts.{Summarizes, get_stats-Summarizes}
use vipnode.Memory.Peers.{refresh, expire, update_node_peers}
use vipnode.Memory.Peers.Update.{recent, seen_at, is_stale, contains, update_node_peers_lem}
use vipnode.Clock.{after}
use vipnode.Memory.Valid.{apply, Op, run, run-IsValid, run-total, granted_by}
use vipnode.Tests.Fixtures.{now, state, client, near, client_entry}

new-IsValid : IsValid (new 100)
unfolding get
new-IsValid = record {
  balances = tt;
  nodes = tt;
  accounts = tt;
  trials = tt;
  nonces = tt;
  peers = λ id n h. cc;
  self = λ id n h. cc;
}

abbrev script : List Op
script =
    Op.register client
    ∷ Op.register near
    ∷ Op.credit_node "client" (pos 3)
    ∷ Op.credit_node "nobody" (pos 3)
    ∷ Op.join_account "wallet" "client"
    ∷ Op.report_peers now "client" ("near" ∷ []) 8
    ∷ Op.unregister "near"
    ∷ []

run-IsValid_example : IsValid (run script (new 100))
run-IsValid_example = run-IsValid script (new 100) new-IsValid

run-total_example :
    total_credit (run script (new 100)) ≡ total_credit (new 100) +ℤ granted_by script (new 100)
run-total_example = run-total script (new 100) new-IsValid

script_grants : granted_by script (new 100) ≡ pos 3
unfolding granted_by apply add_node_balance add_account_node set_node remove_node update_node_peers
    refresh expire after get set remove ◌+ℤ◌ ◌-ℤ◌
script_grants = refl

-- The first call of a fresh nonce is accepted.
fresh_accepted : (check_and_save_nonce now "client" now (new 100)).0 ≡ ok tt
unfolding check_and_save_nonce get ◌-ℤ◌
fresh_accepted = refl

client_found : get "client" state.nodes ≡ some client_entry
unfolding get
client_found = refl

client_registered : get "client" state.nodes ≢ none
unfolding get
client_registered = cc

client_balance :
    (get_node_balance "client" (add_node_balance "client" (pos 9) state).1).0
    ≡ ok (add_credit no_balance (pos 6))
unfolding get_node_balance add_node_balance get set ◌+ℤ◌
client_balance = refl

update_node_peers_lem_example :
    let deadline = now -ℤ pos expire_interval in
    let (r, s') = update_node_peers now "client" ("near" ∷ "ghost" ∷ []) 8 state in
    (inactive : List String) × (n' : MemNode) × (r ≡ ok inactive)
    × (s' ≡ record state { nodes = set "client" n' state.nodes })
    × (n'.node ≡ record client { last_seen = now; block_number = 8 })
    × ((j : String)
        → get j n'.peers
          ≡ recent deadline (seen_at state.nodes ("near" ∷ "ghost" ∷ []) client_entry.peers j))
    × ((j : String)
        → contains j inactive
          ≡ is_stale deadline (seen_at state.nodes ("near" ∷ "ghost" ∷ []) client_entry.peers j))
unfolding get
update_node_peers_lem_example =
    update_node_peers_lem now "client" ("near" ∷ "ghost" ∷ []) 8 state client_entry (refl, tt)
      client_found

-- The peer that was seen an hour ago is dropped and returned.
far_dropped : (update_node_peers now "client" ("near" ∷ "ghost" ∷ []) 8 state).0 ≡ ok ("far" ∷ [])
unfolding update_node_peers refresh expire after get set remove ◌-ℤ◌
far_dropped = refl

active_hosts_lem_example :
    let all = candidates (now -ℤ pos expire_interval) "geth" (values state.nodes) in
    (active_hosts now "geth" (pos 0) state ≡ (ok all, state))
    × ((n : ℕ)
        → active_hosts now "geth" (pos (suc n)) state ≡ (
          if leb (suc n) state.room
              then ok (take (suc n) all)
              else err (panic "makeslice: cap out of range"),
          state,
        ))
    × ((n : ℕ)
        → active_hosts now "geth" (negsuc n) state
          ≡ (err (panic "makeslice: cap out of range"), state))
active_hosts_lem_example = active_hosts_lem now "geth" state

get_stats-Summarizes_example :
    ((get_stats now state).1 ≡ state)
    × ((r : Stats) × ((get_stats now state).0 ≡ ok r) × Summarizes now state r)
get_stats-Summarizes_example = get_stats-Summarizes now state
