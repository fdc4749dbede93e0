-- ===== src/Payment/Withdrawal.antt =====
-- Withdrawals over the in-memory store: what is paid, and what becomes of the credit.
use vipnode.Base.{
  String, ◌≡◌, refl, none, some, List, ◌∷◌, arith, ◌⊎◌, inl, inr, ap, option_keeps, ◌∙◌, sym, subst,
}
use vipnode.Base.Exec.{
  Exec, Result, ok, err, Error, Result-cases, withdraw_disabled, raise, continue,
}
use vipnode.Int.{ℤ, pos, ◌+ℤ◌}
use vipnode.Dict.{Dict, index}
use vipnode.Clock.{Time}
use vipnode.Store.{Balance, no_balance}
use vipnode.Memory.State.{MemoryStore}
use vipnode.Memory.Balances.{get_account_balance}
use vipnode.Memory.Nonces.{check_and_save_nonce, check_and_save_nonce-frame}
use vipnode.Memory.Driver.{memory_driver}
use vipnode.Payment.{
  Arguments, PaymentService, Ledger, pay, Settlement, verify, withdraw, withdraw_all, below_minimum,
  fee_of,
}

abbrev pub in_memory : PaymentService MemoryStore → PaymentService MemoryStore
in_memory p = record p { store = memory_driver }

abbrev pub held_in : String → Dict Balance → ℤ
held_in wallet m = let b = index wallet no_balance m in b.deposit +ℤ b.credit

-- Deposit and credit of a wallet.
abbrev pub holds : String → MemoryStore → ℤ
holds wallet s = held_in wallet s.balances

-- The settlement that a withdrawal calls for a wallet that holds so much.
abbrev pub payment : PaymentService MemoryStore → String → ℤ → Settlement
payment p wallet held = (wallet, fee_of p.withdraw_fee held, pos 0)

-- The outcome of a withdrawal, by the settlements before it: none is called and it fails, or one is,
-- whose result it has.
abbrev pub Withdraws :
    PaymentService MemoryStore
    → String
    → ℤ
    → List Settlement
    → Result (Unit {0}) × Ledger MemoryStore
    → Type 0
Withdraws p wallet held before (r, l') =
    ((e : Error) × (r ≡ err e) × (l'.settlements ≡ before))
    ⊎ ((settle : Settlement → Result String) × (p.settle ≡ some settle)
        × (below_minimum p.withdraw_min held ≡ none)
        × (l'.settlements ≡ payment p wallet held ∷ before)
        × (((tx : String) × (settle (payment p wallet held) ≡ ok tx) × (r ≡ ok tt))
            ⊎ ((e : Error) × (settle (payment p wallet held) ≡ err e) × (r ≡ err e))))

module _ (p : PaymentService MemoryStore) where
  abbrev Kept : String → Ledger MemoryStore → Result (Unit {0}) × Ledger MemoryStore → Type 0
  Kept wallet l r =
      Withdraws p wallet (holds wallet l.stored) l.settlements r × (r.1.stored ≡ l.stored)

  pay-Pays :
      (wallet : String) (settle : Settlement → Result String) (l : Ledger MemoryStore)
      → p.settle ≡ some settle
      → below_minimum p.withdraw_min (holds wallet l.stored) ≡ none
      → Kept wallet l (pay (in_memory p) settle (payment p wallet (holds wallet l.stored)) l)
  pay-Pays wallet settle l has enough =
      elim (Result-cases (settle (payment p wallet (holds wallet l.stored)))) [
        | inl (tx, e) ↦ (inr (settle, has, enough, refl, inl (tx, e, rw e refl)), refl)
        | inr (x, e) ↦ (inr (settle, has, enough, refl, inr (x, e, rw e refl)), refl)
      ]

  withdraw_all-Pays :
      (wallet : String) (settle : Settlement → Result String) (l : Ledger MemoryStore)
      → p.settle ≡ some settle
      → Kept wallet l (withdraw_all (in_memory p) wallet settle l)
  unfolding withdraw_all get_account_balance
  withdraw_all-Pays wallet settle l has =
      option_keeps (λ (m : Exec (Ledger MemoryStore) (Unit {0})). Kept wallet l (m l))
        (below_minimum p.withdraw_min (holds wallet l.stored)) _ _
        (λ enough. pay-Pays wallet settle l has enough) (λ e low. (inl (e, refl, refl), refl))

  verify-frame :
      (now : Time) (sig method wallet : String) (nonce : ℤ) (args : Arguments)
      (l : Ledger MemoryStore)
      → (verify (in_memory p) now sig method wallet nonce args l).1
        ≡ record l { stored = (check_and_save_nonce now wallet nonce l.stored).1 }
  unfolding verify
  verify-frame now sig method wallet nonce args l = ground arith

  rest : String → Exec (Ledger MemoryStore) (Unit {0})
  rest wallet = elim p.settle [
    | none ↦ raise withdraw_disabled
    | some settle ↦ withdraw_all (in_memory p) wallet settle
  ]

  rest-Kept : (wallet : String) (l : Ledger MemoryStore) → Kept wallet l (rest wallet l)
  unfolding rest
  rest-Kept wallet l =
      option_keeps (λ (m : Exec (Ledger MemoryStore) (Unit {0})). Kept wallet l (m l)) p.settle _ _
        (λ e. (inl (withdraw_disabled, refl, refl), refl))
        (λ settle has. withdraw_all-Pays wallet settle l has)

  continued :
      (wallet : String) (r : Result (Unit {0})) (l : Ledger MemoryStore)
      → Kept wallet l (continue r (λ _. rest wallet) l)
  continued wallet (ok _) l = rest-Kept wallet l
  continued wallet (err e) l = (inl (e, refl, refl), refl)

  -- Over the in-memory store, a withdrawal makes no payment and fails, or it makes exactly one, of the
  -- deposit and the credit less the fee, when these reach the minimum, and its result is that of the
  -- settlement. In no case does the store's own balance of the wallet change: the store is left as
  -- the check of the nonce leaves it.
  pub withdraw-Withdraws :
      (now : Time) (sig wallet : String) (nonce : ℤ) (l : Ledger MemoryStore)
      → let out = withdraw (in_memory p) now sig wallet nonce l in
        Withdraws p wallet (holds wallet l.stored) l.settlements out
        × (out.1.stored ≡ (check_and_save_nonce now wallet nonce l.stored).1)
        × (holds wallet out.1.stored ≡ holds wallet l.stored)
  unfolding withdraw rest
  withdraw-Withdraws now sig wallet nonce l =
      let s' = (check_and_save_nonce now wallet nonce l.stored).1 in
      let frame = verify-frame now sig "pool_withdraw" wallet nonce none l in
      let same : s'.balances ≡ l.stored.balances =
        elim (check_and_save_nonce-frame now wallet nonce l.stored) [
          | inl e ↦ ap (λ (s : MemoryStore). s.balances) e
          | inr e ↦ ap (λ (s : MemoryStore). s.balances) e
        ] in
      let held : holds wallet s' ≡ holds wallet l.stored = ap (held_in wallet) same in
      let r = (verify (in_memory p) now sig "pool_withdraw" wallet nonce none l).0 in
      let (paid, kept) = continued wallet r (record l { stored = s' }) in
      subst (λ l1. Goal (continue r (λ _. rest wallet) l1)) (sym frame)
        (
          subst
              (λ h.
                Withdraws p wallet h l.settlements
                  (continue r (λ _. rest wallet) (record l { stored = s' })))
              held paid,
          kept,
          ap (holds wallet) kept ∙ held,
        )
    where
      Goal : Result (Unit {0}) × Ledger MemoryStore → Type 0
      Goal out =
          Withdraws p wallet (holds wallet l.stored) l.settlements out
          × (out.1.stored ≡ (check_and_save_nonce now wallet nonce l.stored).1)
          × (holds wallet out.1.stored ≡ holds wallet l.stored)
