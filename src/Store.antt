-- ===== src/Store.antt =====
-- pool/store/store.go: the data that a pool stores, and the interface `Store` of its drivers.
pub mod Stats
pub mod Driver
pub mod Book
use vipnode.Base.{ℕ, ◌*◌, String, Bool}
use vipnode.Base.Exec.{Exec}
use vipnode.Int.{ℤ, pos}
use vipnode.Dict.{Dict}
use vipnode.Clock.{Time, second, zero_time}

abbrev pub keepalive_interval : ℕ
keepalive_interval = 60 * second

abbrev pub expire_interval : ℕ
expire_interval = keepalive_interval * 2

abbrev pub expire_nonce : ℕ
expire_nonce = 15 * 60 * second

pub record Balance : Type 0 where
  pub account : String
  pub deposit : ℤ
  pub credit : ℤ
  pub next_withdraw : Time

-- `Balance{}`
abbrev pub no_balance : Balance
no_balance = record { account = ""; deposit = pos 0; credit = pos 0; next_withdraw = zero_time }

pub record Node : Type 0 where
  pub id : String
  pub uri : String
  pub last_seen : Time
  pub kind : String
  pub is_host : Bool
  pub payout : String
  pub block_number : ℕ
  pub node_version : String
  pub vipnode_version : String
