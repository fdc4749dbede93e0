-- ===== src/Memory/Driver.antt =====
-- The in-memory store as a driver of the interface `Store`, with the laws of its credit.
use vipnode.Base.{
  String, ◌≡◌, refl, Bool, true, false, Option, none, some, arith, ◌==◌, eq_iff, if◌then◌else◌,
  Option-cases, inl, inr,
}
use vipnode.Base.Exec.{ok, err, unregistered_node}
use vipnode.Int.{ℤ, ◌+ℤ◌}
use vipnode.Dict.{get, index, get-set}
use vipnode.Store.{Balance, no_balance}
use vipnode.Store.Driver.{Driver, CreditLaws}
use vipnode.Memory.State.{MemoryStore, total_credit}
use vipnode.Memory.Nonces.{check_and_save_nonce}
use vipnode.Memory.Balances.{
  get_node_balance, add_node_balance, get_account_balance, add_account_balance, add_account_node,
  is_account_node, get_account_nodes, spendable, add_credit,
}
use vipnode.Memory.Balances.Conserve.{add_node_balance-Credits}
use vipnode.Memory.Nodes.{get_node, set_node, active_hosts, get_stats}
use vipnode.Memory.Peers.{node_peers, update_node_peers}

abbrev pub memory_driver : Driver MemoryStore
memory_driver = record {
  check_and_save_nonce = check_and_save_nonce;
  get_node = get_node;
  set_node = set_node;
  active_hosts = active_hosts;
  node_peers = node_peers;
  update_node_peers = update_node_peers;
  get_node_balance = get_node_balance;
  add_node_balance = add_node_balance;
  get_account_balance = get_account_balance;
  add_account_balance = add_account_balance;
  add_account_node = add_account_node;
  is_account_node = is_account_node;
  get_account_nodes = get_account_nodes;
  stats = get_stats;
}

-- Whether a node is in the map of nodes.
abbrev pub known : String → MemoryStore → Bool
known id s = elim (get id s.nodes) [ none ↦ false | some _ ↦ true ]

-- The credit that a node spends from, and whether two nodes spend from the same.
abbrev pub read_credit : String → MemoryStore → ℤ
read_credit id s = (spendable s id).credit

abbrev same_purse : String → String → Option String → Option String → Bool
same_purse i j none none = i == j
same_purse i j (some a) none = false
same_purse i j none (some b) = false
same_purse i j (some a) (some b) = a == b

abbrev pub share : String → String → MemoryStore → Bool
share i j s = same_purse i j (get i s.accounts) (get j s.accounts)

pub credit_read-add :
    (id j : String) (c : ℤ) (s : MemoryStore)
    → known id s ≡ true
    → read_credit j (add_node_balance id c s).1
      ≡ (if share id j s then read_credit j s +ℤ c else read_credit j s)
unfolding add_node_balance
credit_read-add id j c s h = elim (Option-cases (get id s.accounts)) [
  | inl trial ↦ elim (Option-cases (get j s.accounts)) [
    | inl trial' ↦ ground (
      arith,
      h,
      trial,
      trial',
      get-set id j (add_credit (index id no_balance s.trials) c) s.trials,
      eq_iff id j,
    )
    | inr (b, joined') ↦ ground (arith, h, trial, joined')
  ]
  | inr (a, joined) ↦ elim (Option-cases (get j s.accounts)) [
    | inl trial' ↦ ground (arith, h, joined, trial')
    | inr (b, joined') ↦ ground (
      arith,
      h,
      joined,
      joined',
      get-set a b (add_credit (index a no_balance s.balances) c) s.balances,
      eq_iff a b,
    )
  ]
]

pub share-add :
    (id i j : String) (c : ℤ) (s : MemoryStore)
    → share i j (add_node_balance id c s).1 ≡ share i j s
unfolding add_node_balance
share-add id i j c s = ground arith

pub add_known :
    (id : String) (c : ℤ) (s : MemoryStore)
    → known id s ≡ true
    → ((add_node_balance id c s).0 ≡ ok tt)
      × (total_credit (add_node_balance id c s).1 ≡ total_credit s +ℤ c)
unfolding add_node_balance
add_known id c s h = ground (arith, add_node_balance-Credits id c s)

pub add_unknown :
    (id : String) (c : ℤ) (s : MemoryStore)
    → known id s ≡ false
    → add_node_balance id c s ≡ (err unregistered_node, s)
unfolding add_node_balance
add_unknown id c s h = ground arith

pub known-add :
    (id j : String) (c : ℤ) (s : MemoryStore) → known j (add_node_balance id c s).1 ≡ known j s
unfolding add_node_balance
known-add id j c s = ground arith

pub get_known :
    (id : String) (s : MemoryStore)
    → known id s ≡ true
    → (b : Balance) × (get_node_balance id s ≡ (ok b, s)) × (b.credit ≡ read_credit id s)
unfolding get_node_balance
get_known id s h = (spendable s id, ground arith, refl)

pub get_unknown :
    (id : String) (s : MemoryStore)
    → known id s ≡ false
    → get_node_balance id s ≡ (err unregistered_node, s)
unfolding get_node_balance
get_unknown id s h = ground arith

-- The in-memory store fills the laws that the balance manager relies on.
abbrev pub memory_credit : CreditLaws memory_driver
memory_credit = record {
  total = total_credit;
  is_registered = known;
  credit = read_credit;
  shares = share;
  add_registered = add_known;
  add_unregistered = add_unknown;
  registered-add = known-add;
  get_registered = get_known;
  credit-add = credit_read-add;
  shares-add = share-add;
  get_unregistered = get_unknown;
}
