-- ===== src/Store/Stats.antt =====
-- The aggregates of pool/store/store.go: `Stats`, `CountNode` and `CountBalance`.
use vipnode.Base.{ℕ, ◌+◌, Bool, false, ◌==◌, ltb, if◌then◌else◌}
use vipnode.Int.{ℤ, pos, ◌+ℤ◌, ◌-ℤ◌, leb_ℤ}
use vipnode.Clock.{Time, after, zero_time}
use vipnode.Store.{Node, Balance, expire_interval}

pub record Stats : Type 0 where
  pub num_active_hosts : ℕ
  pub num_total_hosts : ℕ
  pub num_active_clients : ℕ
  pub num_total_clients : ℕ
  pub latest_block_number : ℕ
  pub total_credit : ℤ
  pub total_deposit : ℤ
  pub num_trial_balances : ℕ
  pub active_since : Time

-- `Stats{}`
abbrev pub no_stats : Stats
no_stats = record {
  num_active_hosts = 0;
  num_total_hosts = 0;
  num_active_clients = 0;
  num_total_clients = 0;
  latest_block_number = 0;
  total_credit = pos 0;
  total_deposit = pos 0;
  num_trial_balances = 0;
  active_since = zero_time;
}

-- `t.IsZero()`
unfoldable pub is_zero : Time → Bool
is_zero t = if leb_ℤ t zero_time then leb_ℤ zero_time t else false

abbrev pub one_if : Bool → ℕ
one_if b = if b then 1 else 0

-- The deadline that `CountNode` sets on first use and keeps.
unfoldable pub since_of : Time → Stats → Time
since_of now stats =
    if is_zero stats.active_since then now -ℤ pos expire_interval else stats.active_since

-- `CountNode`; the clock is read only when `activeSince` is not set yet.
unfoldable pub count_node : Time → Stats → Node → Stats
count_node now stats n =
    let since = since_of now stats in
    let active = one_if (after n.last_seen since) in
    let latest =
      if ltb stats.latest_block_number n.block_number
      then n.block_number
      else stats.latest_block_number in
    if n.is_host
    then record stats {
      active_since = since;
      num_total_hosts = stats.num_total_hosts + 1;
      num_active_hosts = stats.num_active_hosts + active;
      latest_block_number = latest;
    }
    else record stats {
      active_since = since;
      num_total_clients = stats.num_total_clients + 1;
      num_active_clients = stats.num_active_clients + active;
      latest_block_number = latest;
    }

-- `CountBalance`
unfoldable pub count_balance : Stats → Balance → Stats
count_balance s b = record s {
  total_credit = s.total_credit +ℤ b.credit;
  total_deposit = s.total_deposit +ℤ b.deposit;
  num_trial_balances = s.num_trial_balances + one_if (b.account == "");
}
