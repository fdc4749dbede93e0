-- ===== src/Payment.antt =====
-- pool/payment/service.go: the wallets of a pool. The settlement on the chain is a parameter.
pub mod Cache
pub mod Subscription
pub mod Withdrawal
pub mod Contract
use Prim.Native.String.{len, slice}
use vipnode.Base.{String, Option, none, some, List, [], ◌∷◌, ltb, ◌==◌, if◌then◌else◌}
use vipnode.Base.Exec.{
  Exec, Result, ok, err, Error, external, panic, withdraw_disabled, withdraw_minimum,
  missing_wallet, pure, raise, raise_if, lift, gets, ◌>>=◌, ◌>>◌,
}
use vipnode.Int.{ℤ, pos, ◌+ℤ◌, ltb_ℤ}
use vipnode.Clock.{Time}
use vipnode.Store.{Balance}
use vipnode.Store.Driver.{Driver}
use vipnode.Request
use vipnode.Request.{Crypto}
use vipnode.Pool.State.{verify_error}

-- The signed argument of the requests, if they have one.
abbrev pub Arguments : Type 0
Arguments = Option String

pub record AccountResponse : Type 0 where
  pub node_short_ids : List String
  pub balance : Balance

-- A call of the settlement: the account, the amount that is paid and the balance that replaces it.
abbrev pub Settlement : Type 0
Settlement = String × ℤ × ℤ

-- `PaymentService`; the settlement answers with a transaction or an error.
pub record PaymentService (S : Type 0) : Type 0 where
  pub store : Driver S
  pub settle : Option (Settlement → Result String)
  pub withdraw_fee : Option (ℤ → ℤ)
  pub withdraw_min : Option ℤ
  pub crypto : Crypto Arguments

-- The state of the store, and the settlements that were called.
pub record Ledger (S : Type 0) : Type 0 where
  pub stored : S
  pub settlements : List Settlement

-- `string(nodeID)[:12]`
unfoldable pub short_ids : List String → Result (List String)
short_ids [] = ok []
short_ids (id ∷ ids) =
    let rest = short_ids ids in
    if ltb (len id) 12
    then err (panic "slice bounds out of range")
    else elim rest [ ok shorts ↦ ok (slice id 0 12 ∷ shorts) | err e ↦ err e ]

unfoldable pub below_minimum : Option ℤ → ℤ → Option Error
below_minimum none total = none
below_minimum (some min) total = if ltb_ℤ total min then some (withdraw_minimum total min) else none

abbrev pub fee_of : Option (ℤ → ℤ) → ℤ → ℤ
fee_of none total = total
fee_of (some fee) total = fee total

module _ {S : Type 0} (p : PaymentService S) where
  abbrev pub on_ledger : {A : Type 0} → Exec S A → Exec (Ledger S) A
  on_ledger m l = let (r, s) = m l.stored in (r, record l { stored = s })

  -- `verify`: the nonce is saved before the signature is looked at.
  unfoldable pub verify :
      Time → String → String → String → ℤ → Arguments → Exec (Ledger S) (Unit {0})
  verify now sig method wallet nonce args l =
      let (r, l') = on_ledger (p.store.check_and_save_nonce now wallet nonce) l in
      elim r [
        | err e ↦ (err (verify_error method e), l')
        | ok _ ↦ elim (Request.verify p.crypto sig method wallet nonce args) [
          | err e ↦ (err (verify_error method e), l')
          | ok _ ↦ (ok tt, l')
        ]
      ]

  -- `Account`; nothing is verified.
  unfoldable pub account : String → Exec (Ledger S) AccountResponse
  account wallet = do
    raise_if (wallet == "") missing_wallet
    balance ← on_ledger (p.store.get_account_balance wallet)
    ids ← on_ledger (p.store.get_account_nodes wallet)
    shorts ← lift (short_ids ids)
    pure (record { node_short_ids = shorts; balance = balance })

  -- `AddNode`
  unfoldable pub add_node : Time → String → String → ℤ → String → Exec (Ledger S) (Unit {0})
  add_node now sig wallet nonce node_id = do
    verify now sig "pool_addNode" wallet nonce (some node_id)
    on_ledger (p.store.add_account_node wallet node_id)

  -- The call of the settlement.
  abbrev pub pay : (Settlement → Result String) → Settlement → Exec (Ledger S) (Unit {0})
  pay settle call l = (
    elim (settle call) [ ok _ ↦ ok tt | err e ↦ err e ],
    record l { settlements = call ∷ l.settlements },
  )

  -- `Withdraw` once the request is verified.
  unfoldable pub withdraw_all : String → (Settlement → Result String) → Exec (Ledger S) (Unit {0})
  withdraw_all wallet settle = do
    balance ← on_ledger (p.store.get_account_balance wallet)
    let total = balance.deposit +ℤ balance.credit
    elim (below_minimum p.withdraw_min total) [
      | some e ↦ raise e
      | none ↦ pay settle (wallet, fee_of p.withdraw_fee total, pos 0)
    ]

  -- `Withdraw`
  unfoldable pub withdraw : Time → String → String → ℤ → Exec (Ledger S) (Unit {0})
  withdraw now sig wallet nonce = do
    verify now sig "pool_withdraw" wallet nonce none
    elim p.settle [ none ↦ raise withdraw_disabled | some settle ↦ withdraw_all wallet settle ]
