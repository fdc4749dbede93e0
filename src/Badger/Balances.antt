-- ===== src/Badger/Balances.antt =====
-- The balances of pool/store/badger/badger.go.
use vipnode.Base.{String, not, Option, none, some, List, [], ◌∷◌, ◌==◌, if◌then◌else◌}
use vipnode.Base.Exec.{
  Exec, unregistered_node, not_authorized, pure, raise, raise_if, gets, ◌>>=◌, ◌>>◌,
}
use vipnode.Int.{ℤ, ◌+ℤ◌}
use vipnode.Store.{Balance, no_balance}
use vipnode.Badger.{Engine, find_item, set_item, has_key, loop_items, reading, view, transaction}
use vipnode.Badger.Keys.{print_key, prefix, Kind}

abbrev pub or_empty : Option Balance → Balance
or_empty none = no_balance
or_empty (some b) = b

abbrev pub add_credit : Balance → ℤ → Balance
add_credit b credit = record b { credit = b.credit +ℤ credit }

-- The loop of `GetAccountNodes` over the decoded entries.
unfoldable pub nodes_of : String → List (String × String) → List String
nodes_of account [] = []
nodes_of account ((id, a) ∷ rest) =
    let others = nodes_of account rest in if a == account then id ∷ others else others

module _ {B T : Type 0} (e : Engine B T) where
  -- The key of the balance that a node spends.
  abbrev pub spend_key : String → Option String → String
  spend_key id none = print_key Kind.trial id
  spend_key id (some account) = print_key Kind.balance account

  -- The balance under a key; if there is none, the node has to be registered.
  unfoldable pub balance_at : String → String → Exec T Balance
  balance_at id key = do
    found ← reading e (find_item e e.balances key)
    registered ← gets (has_key e (print_key Kind.node id))
    elim found [
      | some b ↦ pure b
      | none ↦ if registered then pure no_balance else raise unregistered_node
    ]

  unfoldable pub get_node_balance : String → Exec T Balance
  unfolding balance_at
  get_node_balance id = view e (do
    account ← reading e (find_item e e.strings (print_key Kind.account id))
    balance_at id (spend_key id account))

  -- The transactions of `AddNodeBalance`, `AddAccountBalance` and `AddAccountNode`.
  unfoldable pub add_to_node : String → ℤ → Exec T (Unit {0})
  unfolding balance_at
  add_to_node id credit = do
    account ← reading e (find_item e e.strings (print_key Kind.account id))
    balance ← balance_at id (spend_key id account)
    set_item e e.balances (spend_key id account) (add_credit balance credit)

  unfoldable pub add_to_account : String → ℤ → Exec T (Unit {0})
  add_to_account account credit = do
    found ← reading e (find_item e e.balances (print_key Kind.balance account))
    set_item e e.balances (print_key Kind.balance account)
        (record (add_credit (or_empty found) credit) { account = account })

  -- The trial balance is merged into that of the account, and deleted.
  unfoldable pub join : String → String → Exec T (Unit {0})
  join account id = do
    registered ← gets (has_key e (print_key Kind.node id))
    raise_if (not registered) unregistered_node
    trial ← reading e (find_item e e.balances (print_key Kind.trial id))
    found ← reading e (find_item e e.balances (print_key Kind.balance account))
    set_item e e.strings (print_key Kind.account id) account
    set_item e e.balances (print_key Kind.balance account)
        (record (add_credit (or_empty found) (or_empty trial).credit) { account = account })
    e.delete (print_key Kind.trial id)

  unfoldable pub add_node_balance : String → ℤ → Exec T (Unit {0})
  add_node_balance id credit = transaction e (add_to_node id credit)

  unfoldable pub get_account_balance : String → Exec T Balance
  get_account_balance account = view e (do
    found ← reading e (find_item e e.balances (print_key Kind.balance account))
    pure (or_empty found))

  unfoldable pub add_account_balance : String → ℤ → Exec T (Unit {0})
  add_account_balance account credit = transaction e (add_to_account account credit)

  unfoldable pub add_account_node : String → String → Exec T (Unit {0})
  add_account_node account id = transaction e (join account id)

  unfoldable pub is_account_node : String → String → Exec T (Unit {0})
  is_account_node account id = view e (do
    found ← reading e (find_item e e.strings (print_key Kind.account id))
    elim found [
      | none ↦ raise not_authorized
      | some a ↦ if a == account then pure tt else raise not_authorized
    ])

  unfoldable pub get_account_nodes : String → Exec T (List String)
  get_account_nodes account = view e (do
    entries ← reading e (loop_items e e.strings (prefix Kind.account))
    pure (nodes_of account entries))
