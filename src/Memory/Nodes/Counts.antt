-- ===== src/Memory/Nodes/Counts.antt =====
-- `Stats` of the in-memory store against sums over the state.
use vipnode.Base.Exec.{ok}
use vipnode.Base.{◌&&◌, not, All, ◌≤◌, ℕ, ◌+◌, ◌≡◌, refl, Bool, List, [], ◌∷◌, arith, ◌∙◌, ◌==◌}
use vipnode.Int.{pos, ◌-ℤ◌, ◌+ℤ◌, int_laws}
use vipnode.Dict.{Dict, values, total}
use vipnode.Clock.{Time, after}
use vipnode.Store.{Node, Balance, expire_interval}
use vipnode.Store.Stats.{Stats, count_node, count_balance, one_if, since_of, no_stats, is_zero}
use vipnode.Memory.State.{MemNode, MemoryStore, credit_of, deposit_of, total_credit}
use vipnode.Memory.Nodes.{count_nodes, count_balances, get_stats}

-- The number of nodes that pass a test.
abbrev pub count : (Node → Bool) → List MemNode → ℕ
count p [] = 0
count p (n ∷ ns) = one_if (p n.node) + count p ns

abbrev pub is_trial : Balance → ℕ
is_trial b = one_if (b.account == "")

abbrev pub sum_of : (Balance → ℕ) → List Balance → ℕ
sum_of f [] = 0
sum_of f (b ∷ bs) = f b + sum_of f bs

credit-count_balances :
    (m : Dict Balance) (stats : Stats)
    → let r = count_balances (values m) stats in
      (r.total_credit ≡ stats.total_credit +ℤ total credit_of m)
      × (r.total_deposit ≡ stats.total_deposit +ℤ total deposit_of m)
      × (r.num_trial_balances ≡ stats.num_trial_balances + sum_of is_trial (values m))
unfolding count_balances count_balance values total
credit-count_balances [] stats = (grind int_laws, grind int_laws, omega arith)
credit-count_balances ((k, b) ∷ m) stats =
    let ih = credit-count_balances m (count_balance stats b) in
    (grind (int_laws, ih.0), grind (int_laws, ih.1), omega (arith, ih.2))

nodes-count_balances :
    (bs : List Balance) (stats : Stats)
    → let r = count_balances bs stats in
      (r.num_total_hosts ≡ stats.num_total_hosts)
      × (r.num_active_hosts ≡ stats.num_active_hosts)
      × (r.num_total_clients ≡ stats.num_total_clients)
      × (r.num_active_clients ≡ stats.num_active_clients)
      × (r.latest_block_number ≡ stats.latest_block_number)
unfolding count_balances count_balance
nodes-count_balances [] stats = (refl, refl, refl, refl, refl)
nodes-count_balances (b ∷ bs) stats = nodes-count_balances bs (count_balance stats b)

balances-count_node :
    (now : Time) (stats : Stats) (n : Node)
    → let r = count_node now stats n in
      (r.total_credit ≡ stats.total_credit)
      × (r.total_deposit ≡ stats.total_deposit)
      × (r.num_trial_balances ≡ stats.num_trial_balances)
unfolding count_node
balances-count_node now stats n = ground arith

balances-count_nodes :
    (now : Time) (ns : List MemNode) (stats : Stats)
    → let r = count_nodes now ns stats in
      (r.total_credit ≡ stats.total_credit)
      × (r.total_deposit ≡ stats.total_deposit)
      × (r.num_trial_balances ≡ stats.num_trial_balances)
unfolding count_nodes
balances-count_nodes now [] stats = (refl, refl, refl)
balances-count_nodes now (n ∷ ns) stats =
    let ih = balances-count_nodes now ns (count_node now stats n.node) in
    let one = balances-count_node now stats n.node in (ih.0 ∙ one.0, ih.1 ∙ one.1, ih.2 ∙ one.2)

-- Whether a node counts as active.
abbrev pub is_recent : Time → Node → Bool
is_recent since n = after n.last_seen since

-- The counters after the loop over the nodes.
record Counted (since : Time) (ns : List MemNode) (before after : Stats) : Type 0 where
  hosts : after.num_total_hosts ≡ before.num_total_hosts + count (λ n. n.is_host) ns
  active_hosts :
      after.num_active_hosts
      ≡ before.num_active_hosts + count (λ n. n.is_host && is_recent since n) ns
  clients : after.num_total_clients ≡ before.num_total_clients + count (λ n. not n.is_host) ns
  active_clients :
      after.num_active_clients
      ≡ before.num_active_clients + count (λ n. not n.is_host && is_recent since n) ns
  blocks : All (λ n. n.node.block_number ≤ after.latest_block_number) ns
  latest : before.latest_block_number ≤ after.latest_block_number

since_of-count_node :
    (now : Time) (n : Node) (stats : Stats)
    → since_of now stats ≡ now -ℤ pos expire_interval
    → since_of now (count_node now stats n) ≡ now -ℤ pos expire_interval
unfolding count_node since_of
since_of-count_node now n stats e = ground arith

module _ (now : Time) where
  count_nodes-Counted :
      (ns : List MemNode) (stats : Stats)
      → since_of now stats ≡ now -ℤ pos expire_interval
      → Counted (now -ℤ pos expire_interval) ns stats (count_nodes now ns stats)
  unfolding count_nodes count_node
  count_nodes-Counted [] stats e = ground arith
  count_nodes-Counted (n ∷ ns) stats e =
      let ih =
        count_nodes-Counted ns (count_node now stats n.node)
          (since_of-count_node now n.node stats e) in
      record {
        hosts = ground (arith, ih.hosts);
        active_hosts = ground (arith, ih.active_hosts);
        clients = ground (arith, ih.clients);
        active_clients = ground (arith, ih.active_clients);
        blocks = (ground (arith, ih.latest), ih.blocks);
        latest = ground (arith, ih.latest);
      }

-- The statistics of a state: every counter is the number of what it counts, the block number is
-- one that no node exceeds, and the totals are the sums over accounts and trials.
pub record Summarizes (now : Time) (s : MemoryStore) (r : Stats) : Type 0 where
  pub hosts : r.num_total_hosts ≡ count (λ n. n.is_host) (values s.nodes)
  pub active_hosts :
      r.num_active_hosts
      ≡ count (λ n. n.is_host && is_recent (now -ℤ pos expire_interval) n) (values s.nodes)
  pub clients : r.num_total_clients ≡ count (λ n. not n.is_host) (values s.nodes)
  pub active_clients :
      r.num_active_clients
      ≡ count (λ n. not n.is_host && is_recent (now -ℤ pos expire_interval) n) (values s.nodes)
  pub blocks : All (λ n. n.node.block_number ≤ r.latest_block_number) (values s.nodes)
  pub credit : r.total_credit ≡ total_credit s
  pub deposit : r.total_deposit ≡ total deposit_of s.balances +ℤ total deposit_of s.trials
  pub trials :
      r.num_trial_balances ≡ sum_of is_trial (values s.balances) + sum_of is_trial (values s.trials)

-- `Stats` of the in-memory store never fails, changes nothing, and summarizes the state.
pub get_stats-Summarizes :
    (now : Time) (s : MemoryStore)
    → ((get_stats now s).1 ≡ s) × ((r : Stats) × ((get_stats now s).0 ≡ ok r) × Summarizes now s r)
unfolding get_stats since_of is_zero
get_stats-Summarizes now s =
    let a = count_nodes now (values s.nodes) no_stats in
    let b = count_balances (values s.balances) a in
    let c = count_balances (values s.trials) b in
    let n = count_nodes-Counted now (values s.nodes) no_stats refl in
    let na = balances-count_nodes now (values s.nodes) no_stats in
    let nb = nodes-count_balances (values s.balances) a in
    let nc = nodes-count_balances (values s.trials) b in
    let cb = credit-count_balances s.balances a in
    let cc' = credit-count_balances s.trials b in
    (
      refl,
      (
        c,
        refl,
        record {
          hosts = omega (arith, n.hosts, nb.0, nc.0);
          active_hosts = omega (arith, n.active_hosts, nb.1, nc.1);
          clients = omega (arith, n.clients, nb.2, nc.2);
          active_clients = omega (arith, n.active_clients, nb.3, nc.3);
          blocks = rw (nc.4, nb.4) n.blocks;
          credit = grind (int_laws, cc'.0, cb.0, na.0);
          deposit = grind (int_laws, cc'.1, cb.1, na.1);
          trials = omega (arith, cc'.2, cb.2, na.2);
        },
      ),
    )
