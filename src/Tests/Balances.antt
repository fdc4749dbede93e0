-- ===== src/Tests/Balances.antt =====
-- The balance manager: runs and instances.
use vipnode.Base.{◌*◌, ◌+◌, ◌≡◌, refl, some, [], ◌∷◌, arith}
use vipnode.Base.Exec.{err, low_balance}
use vipnode.Int.{pos, ◌+ℤ◌, ◌-ℤ◌, ◌*ℤ◌, ◌/ℤ◌, ◌≤ℤ◌}
use vipnode.Dict.{get, set, total}
use vipnode.Clock.{second, sub_time}
use vipnode.Memory.State.{total_credit}
use vipnode.Memory.Balances.{add_node_balance}
use vipnode.Memory.Driver.{memory_driver, memory_credit}
use vipnode.Balance.{
  PayPerInterval, interval_credit, on_update, charge, settle, credit_peers, too_low,
}
use vipnode.Balance.Charge.{Settles, on_update-Settles}
use vipnode.Balance.Interval.{interval_credit_split}
use vipnode.Tests.Fixtures.{now, client, near, far, state}

-- 1000 a minute, and at least 5000 in the balance.
abbrev price : PayPerInterval
price = record {
  interval = pos (60 * second);
  credit_per_interval = pos 1000;
  min_balance = some (pos 5000);
}

minute_credit : interval_credit price now client.last_seen ≡ pos 1000
unfolding interval_credit sub_time ◌-ℤ◌ ◌*ℤ◌ ◌/ℤ◌
minute_credit = refl

on_update-Settles_example :
    Settles memory_driver memory_credit price
      (interval_credit price now client.last_seen)
      client
      (near ∷ far ∷ [])
      state
      (on_update memory_driver price now client (near ∷ far ∷ []) state)
unfolding get interval_credit sub_time ◌-ℤ◌ ◌*ℤ◌ ◌/ℤ◌
on_update-Settles_example =
    on_update-Settles memory_driver memory_credit price now client (near ∷ far ∷ []) state refl refl
      refl refl refl (refl, (refl, tt))

-- The update of a client that is charged 2000 fails below a minimum of 5000, whatever its balance;
-- the hosts keep 2000 that nobody has paid.
hosts_keep_credit :
    let (r, s') = on_update memory_driver price now client (near ∷ far ∷ []) state in
    (r ≡ err (low_balance (pos 2000) (pos 5000)))
    × (total_credit state ≡ pos 7)
    × (total_credit s' ≡ pos 2007)
unfolding on_update charge settle credit_peers too_low interval_credit add_node_balance get set
    sub_time total ◌+ℤ◌ ◌-ℤ◌ ◌*ℤ◌ ◌/ℤ◌
hosts_keep_credit = (refl, refl, refl)

interval_credit_split_example :
    let first = interval_credit price (pos (5 + 90)) (pos 5) in
    let second_part = interval_credit price (pos (5 + 90 + 40)) (pos (5 + 90)) in
    let whole = interval_credit price (pos (5 + (90 + 40))) (pos 5) in
    (first +ℤ second_part ≤ℤ whole) × (whole ≤ℤ first +ℤ second_part +ℤ pos 1)
interval_credit_split_example =
    interval_credit_split price (60 * second) 1000 5 90 40 refl (omega arith) refl (omega arith)
