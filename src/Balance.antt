-- ===== src/Balance.antt =====
-- pool/balance/: the balance managers `NoBalance` and `payPerInterval`.
pub mod Charge
pub mod Interval
use vipnode.Base.{
  String, ◌≡◌, Bool, true, false, Option, none, some, List, [], ◌∷◌, not, ◌||◌, if◌then◌else◌,
}
use vipnode.Base.Exec.{
  Exec, Result, ok, err, Error, low_balance, invalid_interval, ◌>>=◌, ◌>>◌, pure, raise, continue,
}
use vipnode.Int.{ℤ, pos, ◌+ℤ◌, ◌-ℤ◌, ◌*ℤ◌, ◌/ℤ◌, pos_part, ltb_ℤ, leb_ℤ, eqb_ℤ}
use vipnode.Clock.{Time, sub_time}
use vipnode.Store.{Node, Balance, no_balance}
use vipnode.Store.Driver.{Driver}

-- The interface `Manager` of pool/balance/balance.go; the reading of the clock comes first.
pub record Manager (S : Type 0) : Type 0 where
  pub on_client : Node → Exec S (Unit {0})
  pub on_update : Time → Node → List Node → Exec S Balance

-- pool/balance/nobalance.go
abbrev pub no_balance_manager : {S : Type 0} → Manager S
no_balance_manager = record {
  on_client = λ node. pure tt;
  on_update = λ now node peers. pure no_balance;
}

-- The settings of `payPerInterval`; the interval is a duration.
pub record PayPerInterval : Type 0 where
  pub interval : ℤ
  pub credit_per_interval : ℤ
  pub min_balance : Option ℤ

-- `intervalCredit`: the credit for the time since the node was last seen, rounded down. It is called
-- at a positive interval only.
unfoldable pub interval_credit : PayPerInterval → Time → Time → ℤ
interval_credit b now last_seen =
    (sub_time now last_seen *ℤ b.credit_per_interval) /ℤ pos_part b.interval

-- The error of `b.MinBalance != nil && b.MinBalance.Cmp(total) > 0`, if the test holds.
unfoldable pub too_low : PayPerInterval → ℤ → Option Error
too_low b total = elim b.min_balance [
  | none ↦ none
  | some min ↦ if ltb_ℤ total min then some (low_balance total min) else none
]

module _ {S : Type 0} (store : Driver S) where
  unfoldable pub on_client : PayPerInterval → Node → Exec S (Unit {0})
  on_client b node = elim b.min_balance [
    | none ↦ pure tt
    | some min ↦ do
      balance ← store.get_node_balance node.id
      let total = balance.credit +ℤ balance.deposit
      if ltb_ℤ total min then raise (low_balance total min) else pure tt
  ]

  -- The loop over the peers; an error of `AddNodeBalance` is dropped. It returns the state and the
  -- sum of what was added, failed additions included.
  unfoldable pub credit_peers : ℤ → List Node → ℤ → S → ℤ × S
  credit_peers credit [] total s = (total, s)
  credit_peers credit (peer ∷ peers) total s =
      credit_peers credit peers (total +ℤ credit) (store.add_node_balance peer.id credit s).1

  -- The end of `OnUpdate`: the balance is read twice.
  unfoldable pub charge_node : String → ℤ → Exec S Balance
  charge_node id total = do
    store.add_node_balance id (pos 0 -ℤ total)
    store.get_node_balance id
    store.get_node_balance id

  -- The comparison with the minimum, and the charge if it passes.
  unfoldable pub settle : PayPerInterval → String → ℤ → Exec S Balance
  settle b id total s = elim (too_low b total) [
    | none ↦ charge_node id total s
    | some e ↦ (err e, s)
  ]

  unfoldable pub charge : PayPerInterval → ℤ → Node → List Node → Exec S Balance
  charge b credit node peers s =
      let (total, s') = credit_peers credit peers (pos 0) s in settle b node.id total s'

  unfoldable pub on_update : PayPerInterval → Time → Node → List Node → Exec S Balance
  on_update b now node peers =
      if node.is_host
      then store.get_node_balance node.id
      else if leb_ℤ b.interval (pos 0) || eqb_ℤ b.credit_per_interval (pos 0)
      then raise invalid_interval
      else (let credit = interval_credit b now node.last_seen in
          if eqb_ℤ credit (pos 0)
          then store.get_node_balance node.id
          else charge b credit node peers)

  -- `PayPerInterval`
  unfoldable pub pay_per_interval : PayPerInterval → Manager S
  pay_per_interval b = record { on_client = on_client b; on_update = on_update b }
