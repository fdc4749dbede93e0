-- ===== src/Payment/Contract.antt =====
-- pool/payment/contract.go: balances with the deposits of a contract. The contract on the chain is a
-- parameter.
use vipnode.Base.{
  String, ◌≡◌, refl, false, not, Option, none, some, inl, inr, Bool-cases, ◌==◌, if◌then◌else◌, ap,
}
use vipnode.Base.Exec.{
  Exec, Result, ok, err, external, deposit_timelocked, address_mismatch, Result-cases, pure, ◌>>=◌,
}
use vipnode.Int.{ℤ, pos, eqb_ℤ}
use vipnode.Clock.{Time, zero_time}
use vipnode.Base.{[]}
use vipnode.Store.{Balance}
use vipnode.Store.Driver.{Driver}
use vipnode.Dict.{get, get_self}
use vipnode.Payment.Cache.{BalanceCache, set_balance, get_balance}

-- An account of the contract.
pub record ChainAccount : Type 0 where
  pub balance : ℤ
  pub time_locked : ℤ

-- What is used of the contract, at an address of the chain: `Operator`, `Accounts`, `OpSettle`, the
-- address that a text is read as, and how an address is written.
pub record Chain (W : Type 0) : Type 0 where
  pub operator : W → Result String
  pub accounts : String → W → Result ChainAccount
  pub op_settle : String → String → ℤ → ℤ → Exec W String
  pub to_address : String → String
  pub hex : String → String

-- `contractPayment` with the state of its store and of the chain.
pub record Contract (S W : Type 0) : Type 0 where
  pub stored : S
  pub chain_state : W
  pub balance_cache : BalanceCache

set_lasting :
    (set_at : Time) (account : String) (amount : ℤ) (b : BalanceCache)
    → b.expire_after ≡ pos 0
    → get account (set_balance set_at account amount b).cache
      ≡ some (record { value = amount; expire = zero_time })
unfolding set_balance
set_lasting set_at account amount b lasting =
    rw lasting (get_self account (record { value = amount; expire = zero_time }) b.cache)

get_lasting :
    (getter : String → Result ℤ) (now later : Time) (account : String) (amount : ℤ)
    (b : BalanceCache)
    → get account b.cache ≡ some (record { value = amount; expire = zero_time })
    → get_balance getter now later account b ≡ (ok amount, b)
unfolding get_balance
get_lasting getter now later account amount b found = rw (found, get_balance) refl

module _ {S W : Type 0} (store : Driver S) (chain : Chain W) where
  -- The check of `ContractPayment`: the wallet of the pool has to be the operator of the contract.
  unfoldable pub open_contract : Option String → S → W → Result (Contract S W)
  open_contract transactor s w =
      let opened : Contract S W = record {
        stored = s;
        chain_state = w;
        balance_cache = record { expire_after = pos 0; cache = [] };
      } in
      elim transactor [
        | none ↦ ok opened
        | some from ↦ elim (chain.operator w) [
          | err x ↦ err x
          | ok operator ↦
              if operator == from
              then ok opened
              else err
                  (address_mismatch "incorrect wallet provided for contract operator" operator from)
        ]
      ]

  abbrev pub unlocked : Result ChainAccount → Result ℤ
  unlocked (err x) = err x
  unlocked (ok r) =
      if not (eqb_ℤ r.time_locked (pos 0)) then err deposit_timelocked else ok r.balance

  -- `GetBalance`
  unfoldable pub chain_balance : W → String → Result ℤ
  chain_balance w account =
      if account == ""
      then err (external "failed to get balance: empty account")
      else unlocked (chain.accounts (chain.to_address account) w)

  abbrev pub on_store : {A : Type 0} → Exec S A → Exec (Contract S W) A
  on_store m c = let (r, s) = m c.stored in (r, record c { stored = s })

  -- `balanceCache.Get`, whose getter is `GetBalance`; the clock is read for the entry and after the call.
  unfoldable pub deposit_of : Time → Time → String → Exec (Contract S W) ℤ
  unfolding chain_balance
  deposit_of now later account c =
      let (r, cached) =
        get_balance (chain_balance c.chain_state) now later account c.balance_cache in
      (r, record c { balance_cache = cached })

  abbrev pub with_deposit : Time → Time → String → Balance → Exec (Contract S W) Balance
  with_deposit now later account b = do
    deposit ← deposit_of now later account
    pure (record b { deposit = deposit })

  -- `GetNodeBalance`; a balance without an account is one of a trial.
  unfoldable pub get_node_balance : Time → Time → String → Exec (Contract S W) Balance
  unfolding deposit_of
  get_node_balance now later id = do
    b ← on_store (store.get_node_balance id)
    if b.account == "" then pure b else with_deposit now later b.account b

  -- `GetAccountBalance`
  unfoldable pub get_account_balance : Time → Time → String → Exec (Contract S W) Balance
  unfolding deposit_of
  get_account_balance now later account = do
    b ← on_store (store.get_account_balance account)
    with_deposit now later account b

  -- `AddNodeBalance` and `AddAccountBalance`
  unfoldable pub add_node_balance : String → ℤ → Exec (Contract S W) (Unit {0})
  add_node_balance id credit = on_store (store.add_node_balance id credit)

  unfoldable pub add_account_balance : String → ℤ → Exec (Contract S W) (Unit {0})
  add_account_balance account credit = on_store (store.add_account_balance account credit)

  -- The handler of a balance event of the contract, at the time at which it runs.
  unfoldable pub on_balance : Time → String → ℤ → Contract S W → Contract S W
  on_balance now address amount c = record c {
    balance_cache = set_balance now (chain.hex address) amount c.balance_cache;
  }

  -- `OpSettle`; without a wallet the contract is only read.
  unfoldable pub settle : Option String → String → ℤ → ℤ → Exec (Contract S W) String
  settle none account payment_amount new_balance c =
      (err (external "OpSettle contract write failed: Payment provider is in read-only mode."), c)
  settle (some from) account payment_amount new_balance c =
      let (r, w) =
        chain.op_settle from (chain.to_address account) payment_amount new_balance c.chain_state in
      (r, record c { chain_state = w })

  -- What was read from the store, if a balance is returned.
  abbrev pub FromStore : Result Balance → Result Balance → Type 0
  FromStore read (ok shown) =
      (b : Balance) × (read ≡ ok b) × (shown ≡ record b { deposit = shown.deposit })
  FromStore read (err x) = Unit {0}

  abbrev cached_after : Time → Time → String → Contract S W → Result ℤ
  cached_after now later account c =
      (get_balance (chain_balance c.chain_state) now later account c.balance_cache).0

  with_deposit-FromStore :
      (now later : Time) (account : String) (b : Balance) (c : Contract S W) (read : Result Balance)
      → read ≡ ok b
      → FromStore read (with_deposit now later account b c).0
  unfolding deposit_of
  with_deposit-FromStore now later account b c read h =
      elim (Result-cases (cached_after now later account c)) [
        | inl (d, found) ↦ rw (found, with_deposit) (b, h, refl)
        | inr (x, failed) ↦ rw (failed, with_deposit) tt
      ]

  -- A balance that a node is shown is that of the store but for the deposit.
  pub get_node_balance-FromStore :
      (now later : Time) (id : String) (c : Contract S W)
      → FromStore (store.get_node_balance id c.stored).0 (get_node_balance now later id c).0
  unfolding get_node_balance
  get_node_balance-FromStore now later id c =
      elim (Result-cases (store.get_node_balance id c.stored).0) [
        | inr (x, failed) ↦ rw failed tt
        | inl (b, read) ↦
            let c' = record c { stored = (store.get_node_balance id c.stored).1 } in
            elim (Bool-cases (b.account == "")) [
              | inl trial ↦ rw (read, trial) (b, refl, refl)
              | inr owned ↦
                  rw (read, owned) (with_deposit-FromStore now later b.account b c' (ok b) refl)
            ]
      ]

  lasting_deposit :
      (set_at now later : Time) (account : String) (amount : ℤ) (c : Contract S W)
      → c.balance_cache.expire_after ≡ pos 0
      → cached_after now later account
          (record c { balance_cache = set_balance set_at account amount c.balance_cache })
        ≡ ok amount
  lasting_deposit set_at now later account amount c lasting =
      let b = set_balance set_at account amount c.balance_cache in
      ap (λ p. p.0)
        (get_lasting (chain_balance c.chain_state) now later account amount b
          (set_lasting set_at account amount c.balance_cache lasting))

  -- While the events of the contract are followed, the balance of an event is the deposit that a
  -- node of the account is shown next, whatever the chain answers; the account is written as the
  -- contract writes the address.
  pub on_balance-get_node_balance :
      (set_at now later : Time) (id address : String) (amount : ℤ) (b : Balance) (c : Contract S W)
      → c.balance_cache.expire_after ≡ pos 0
      → (store.get_node_balance id c.stored).0 ≡ ok b
      → b.account ≡ chain.hex address
      → (b.account == "") ≡ false
      → (get_node_balance now later id (on_balance set_at address amount c)).0
        ≡ ok (record b { deposit = amount })
  unfolding get_node_balance on_balance deposit_of
  on_balance-get_node_balance set_at now later id address amount b c lasting read same owned =
      let after = record c { stored = (store.get_node_balance id c.stored).1 } in
      rw (read, owned)
        (rw same
          (rw (lasting_deposit set_at now later (chain.hex address) amount after lasting) refl))
