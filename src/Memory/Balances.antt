-- ===== src/Memory/Balances.antt =====
-- The balances and spenders of pool/store/memory/memory.go. A copied `store.Balance` is a value here:
-- the sharing of its `big.Int` digits between copies is not modelled.
pub mod Conserve
pub mod Views
use vipnode.Base.{String, Bool, true, false, Option, none, some, List, [], ◌∷◌, ◌==◌, if◌then◌else◌}
use vipnode.Base.Exec.{Exec, Result, ok, err, unregistered_node, not_authorized}
use vipnode.Int.{ℤ, ◌+ℤ◌}
use vipnode.Dict.{Dict, get, set, remove, index}
use vipnode.Store.{Balance, no_balance}
use vipnode.Memory.State.{MemoryStore}

-- `balance.Credit.Add(&balance.Credit, credit)`
abbrev pub add_credit : Balance → ℤ → Balance
add_credit b c = record b { credit = b.credit +ℤ c }

-- What a node spends from: its account's balance, or its trial balance.
abbrev pub spendable : MemoryStore → String → Balance
spendable s node_id = elim (get node_id s.accounts) [
  | none ↦ index node_id no_balance s.trials
  | some account ↦ index account no_balance s.balances
]

unfoldable pub get_node_balance : String → Exec MemoryStore Balance
get_node_balance node_id s = elim (get node_id s.nodes) [
  | none ↦ (err unregistered_node, s)
  | some _ ↦ (ok (spendable s node_id), s)
]

unfoldable pub add_node_balance : String → ℤ → Exec MemoryStore (Unit {0})
add_node_balance node_id credit s = elim (get node_id s.nodes) [
  | none ↦ (err unregistered_node, s)
  | some _ ↦ elim (get node_id s.accounts) [
    | some account ↦ (
      ok tt,
      record s {
        balances = set account (add_credit (index account no_balance s.balances) credit) s.balances;
      },
    )
    | none ↦ (
      ok tt,
      record s {
        trials = set node_id (add_credit (index node_id no_balance s.trials) credit) s.trials;
      },
    )
  ]
]

unfoldable pub get_account_balance : String → Exec MemoryStore Balance
get_account_balance account s = (ok (index account no_balance s.balances), s)

unfoldable pub add_account_balance : String → ℤ → Exec MemoryStore (Unit {0})
add_account_balance account credit s = (
  ok tt,
  record s {
    balances = set account (add_credit (index account no_balance s.balances) credit) s.balances;
  },
)

-- The account takes over the trial balance of the node.
unfoldable pub add_account_node : String → String → Exec MemoryStore (Unit {0})
add_account_node account node_id s = elim (get node_id s.nodes) [
  | none ↦ (err unregistered_node, s)
  | some _ ↦
      let balance = index account no_balance s.balances in
      let trial = index node_id no_balance s.trials in
      (
        ok tt,
        record s {
          accounts = set node_id account s.accounts;
          trials = remove node_id s.trials;
          balances =
              set account
                (record balance { credit = balance.credit +ℤ trial.credit; account = account })
                s.balances;
        },
      )
]

unfoldable pub is_account_node : String → String → Exec MemoryStore (Unit {0})
is_account_node account node_id s = elim (get node_id s.accounts) [
  | none ↦ (err not_authorized, s)
  | some node_account ↦ if node_account == account then (ok tt, s) else (err not_authorized, s)
]

-- The loop of `GetAccountNodes`.
unfoldable pub nodes_of : String → Dict String → List String
nodes_of account [] = []
nodes_of account ((node_id, a) ∷ m) =
    let rest = nodes_of account m in if account == a then node_id ∷ rest else rest

unfoldable pub get_account_nodes : String → Exec MemoryStore (List String)
unfolding nodes_of
get_account_nodes account s = (ok (nodes_of account s.accounts), s)
