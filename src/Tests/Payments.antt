-- ===== src/Tests/Payments.antt =====
-- The wallets: runs and instances.
use vipnode.Base.{String, ◌≡◌, refl, some, [], ◌∷◌, ◌*◌}
use vipnode.Base.Exec.{Result, ok, err, external}
use vipnode.Int.{ℤ, pos, ◌+ℤ◌, ◌-ℤ◌}
use vipnode.Dict.{get, set}
use vipnode.Clock.{second}
use vipnode.Ethnode.{lower}
use vipnode.Request
use vipnode.Memory.State.{MemoryStore}
use vipnode.Memory.Driver.{memory_driver}
use vipnode.Memory.Nonces.{check_and_save_nonce}
use vipnode.Memory.Balances.{get_account_balance}
use vipnode.Payment.{PaymentService, Ledger, verify, withdraw, withdraw_all, below_minimum}
use vipnode.Payment.Cache.{BalanceCache, set_balance, get_balance, Outcome, get_balance_lem}
use vipnode.Payment.Withdrawal.{in_memory, holds, Withdraws, withdraw-Withdraws}
use vipnode.Tests.Fixtures.{now, state}
use vipnode.Tests.Pools.{crypto}

abbrev service : PaymentService MemoryStore
service = record {
  store = memory_driver;
  settle = some (λ call. ok "transaction");
  withdraw_fee = some (λ total. total -ℤ pos 1);
  withdraw_min = some (pos 5);
  crypto = crypto;
}

abbrev ledger : Ledger MemoryStore
ledger = record { stored = state; settlements = [] }

withdraw-Withdraws_example :
    let out = withdraw (in_memory service) now "0x" "wallet" now ledger in
    Withdraws service "wallet" (holds "wallet" state) [] out
    × (out.1.stored ≡ (check_and_save_nonce now "wallet" now state).1)
    × (holds "wallet" out.1.stored ≡ holds "wallet" state)
withdraw-Withdraws_example = withdraw-Withdraws service now "0x" "wallet" now ledger

-- Two withdrawals in a row pay the same credit twice.
pays_twice :
    let first = withdraw (in_memory service) now "0x" "wallet" now ledger in
    let second_time = withdraw (in_memory service) now "0x" "wallet" (now +ℤ pos 1) first.1 in
    (second_time.0 ≡ ok tt)
    × (second_time.1.settlements ≡ ("wallet", pos 14, pos 0) ∷ ("wallet", pos 14, pos 0) ∷ [])
unfolding withdraw withdraw_all below_minimum verify get_account_balance check_and_save_nonce get
    set Request.verify Request.verify_address Request.without_prefix Request.legacy_v
    Request.address_hash Request.assemble lower ◌+ℤ◌ ◌-ℤ◌
pays_twice = (refl, refl)

abbrev cache : BalanceCache
cache = record { expire_after = pos (600 * second); cache = [] }

abbrev getter : String → Result ℤ
getter account = err (external "unreachable")

get_balance_lem_example :
    let b' = set_balance now "wallet" (pos 5) cache in
    Outcome getter
      (now +ℤ pos (700 * second))
      (now +ℤ pos (701 * second))
      "wallet"
      (pos 5)
      (now +ℤ pos (600 * second))
      b'
      (get_balance getter (now +ℤ pos (700 * second)) (now +ℤ pos (701 * second)) "wallet" b')
unfolding ◌+ℤ◌
get_balance_lem_example =
    get_balance_lem getter now (now +ℤ pos (700 * second)) (now +ℤ pos (701 * second)) "wallet"
      (pos 5) cache refl
