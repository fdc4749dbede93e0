-- ===== src/Memory/Balances/Views.antt =====
-- What the readers of the in-memory store see after its writers.
use vipnode.Base.{String, ◌≡◌, ◌≢◌, none, arith, eq_iff, eq_refl}
use vipnode.Base.Exec.{ok, err, not_authorized}
use vipnode.Int.{ℤ, ◌+ℤ◌}
use vipnode.Dict.{get, index, get-set}
use vipnode.Store.{Balance, no_balance}
use vipnode.Memory.State.{MemoryStore}
use vipnode.Memory.Balances.{
  get_node_balance, add_node_balance, add_account_node, is_account_node, add_credit, spendable,
}

-- Credit that is added to a registered node is in the balance read afterwards, whatever kind of
-- balance the node has.
pub get-add_node_balance :
    (node_id : String) (credit : ℤ) (s : MemoryStore)
    → get node_id s.nodes ≢ none
    → (get_node_balance node_id (add_node_balance node_id credit s).1).0
      ≡ ok (add_credit (spendable s node_id) credit)
unfolding get_node_balance add_node_balance
get-add_node_balance node_id credit s known = grind (arith, get-set, eq_refl)

-- A registered node that is added to an account is an authorized spender of it and of no other
-- account, and reads a balance under the account's name whose credit is that of the account and of
-- the node's trial together.
pub add_account_node_effect :
    (account node_id : String) (s : MemoryStore)
    → get node_id s.nodes ≢ none
    → let s' = (add_account_node account node_id s).1 in
      let old = index account no_balance s.balances in
      let trial = index node_id no_balance s.trials in
      ((get_node_balance node_id s').0
        ≡ ok (record old { account = account; credit = old.credit +ℤ trial.credit }))
      × ((is_account_node account node_id s').0 ≡ ok tt)
      × ((other : String)
          → other ≢ account
          → (is_account_node other node_id s').0 ≡ err not_authorized)
unfolding get_node_balance add_account_node is_account_node
add_account_node_effect account node_id s known =
    let old = index account no_balance s.balances in
    let trial = index node_id no_balance s.trials in
    let new : Balance = record old { credit = old.credit +ℤ trial.credit; account = account } in
    (
      grind (
        arith,
        get-set node_id node_id account s.accounts,
        get-set account account new s.balances,
        eq_refl node_id,
        eq_refl account,
      ),
      grind (arith, get-set node_id node_id account s.accounts, eq_refl node_id, eq_refl account),
      λ other differs. grind (
        arith,
        get-set node_id node_id account s.accounts,
        eq_refl node_id,
        eq_iff account other,
      ),
    )
