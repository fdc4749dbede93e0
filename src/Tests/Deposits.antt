-- ===== src/Tests/Deposits.antt =====
-- A contract that answers nothing, and a node whose account gets a deposit.
use vipnode.Base.{◌≡◌, refl, [], ◌∷◌}
use vipnode.Base.Exec.{ok, err, external}
use vipnode.Int.{pos}
use vipnode.Clock.{zero_time}
use vipnode.Dict.{get}
use vipnode.Store.{Balance}
use vipnode.Memory.State.{MemoryStore}
use vipnode.Memory.Driver.{memory_driver}
use vipnode.Memory.Balances.{get_node_balance}
use vipnode.Payment.Contract
use vipnode.Payment.Contract.{
  Chain, Contract, on_balance, FromStore, on_balance-get_node_balance, get_node_balance-FromStore,
}
use vipnode.Tests.Fixtures.{now, state}

abbrev chain : Chain (Unit {0})
chain = record {
  operator = λ w. err (external "unreachable");
  accounts = λ address w. err (external "unreachable");
  op_settle = λ from address paid new w. (err (external "unreachable"), w);
  to_address = λ s. s;
  hex = λ address. address;
}

abbrev contract : Contract MemoryStore (Unit {0})
contract = record {
  stored = record state { accounts = ("client", "wallet") ∷ [] };
  chain_state = tt;
  balance_cache = record { expire_after = pos 0; cache = [] };
}

abbrev stored_balance : Balance
stored_balance = record {
  account = "wallet";
  deposit = pos 5;
  credit = pos 10;
  next_withdraw = zero_time;
}

balance_read : (memory_driver.get_node_balance "client" contract.stored).0 ≡ ok stored_balance
unfolding get_node_balance get
balance_read = refl

on_balance-get_node_balance_example :
    (Contract.get_node_balance memory_driver chain now now "client"
      (on_balance memory_driver chain now "wallet" (pos 70) contract)).0
    ≡ ok (record stored_balance { deposit = pos 70 })
on_balance-get_node_balance_example =
    on_balance-get_node_balance memory_driver chain now now now "client" "wallet" (pos 70)
      stored_balance contract refl balance_read refl refl
