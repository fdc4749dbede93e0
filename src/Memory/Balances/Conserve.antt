-- ===== src/Memory/Balances/Conserve.antt =====
-- No operation of the in-memory store creates or loses credit.
use vipnode.Base.{String, ◌≡◌, refl, inl, inr, arith, Option-cases}
use vipnode.Base.Exec.{Result, ok, err, unregistered_node}
use vipnode.Int.{ℤ, pos, ◌+ℤ◌, int_laws}
use vipnode.Dict.{get, index, total-set, total-remove}
use vipnode.Store.{Balance, no_balance}
use vipnode.Memory.State.{MemoryStore, IsValid, credit_of, total_credit}
use vipnode.Memory.Balances.{add_node_balance, add_account_balance, add_account_node, add_credit}

-- What a call that began at `s` did with the credit: a call that fails leaves the state alone, one
-- that succeeds moves the total by `credit`.
abbrev pub Credits : {A : Type 0} → MemoryStore → ℤ → Result A × MemoryStore → Type 0
Credits s credit (ok _, s') = total_credit s' ≡ total_credit s +ℤ credit
Credits s credit (err e, s') = (e ≡ unregistered_node) × (s' ≡ s)

-- `AddNodeBalance` moves the total by exactly the credit, whether the node has an account or a trial
-- balance; at an unregistered node it fails and changes nothing.
pub add_node_balance-Credits :
    (node_id : String) (credit : ℤ) (s : MemoryStore)
    → Credits s credit (add_node_balance node_id credit s)
unfolding add_node_balance
add_node_balance-Credits node_id credit s = elim (Option-cases (get node_id s.accounts)) [
  | inl trial ↦ grind (
    int_laws,
    total-set credit_of no_balance refl node_id
        (add_credit (index node_id no_balance s.trials) credit) s.trials,
  )
  | inr (a, e) ↦ grind (
    int_laws,
    e,
    total-set credit_of no_balance refl a (add_credit (index a no_balance s.balances) credit)
        s.balances,
  )
]

-- `AddAccountBalance` never fails, and moves the total by exactly the credit.
pub add_account_balance-total :
    (account : String) (credit : ℤ) (s : MemoryStore)
    → let (r, s') = add_account_balance account credit s in
      (r ≡ ok tt) × (total_credit s' ≡ total_credit s +ℤ credit)
unfolding add_account_balance
add_account_balance-total account credit s = (
  refl,
  grind (
    int_laws,
    total-set credit_of no_balance refl account
        (add_credit (index account no_balance s.balances) credit) s.balances,
  ),
)

-- `AddAccountNode` conserves the total: what the trial balance held is in the account. At an
-- unregistered node it fails and changes nothing.
pub add_account_node-Credits :
    (account node_id : String) (s : MemoryStore)
    → IsValid s
    → Credits s (pos 0) (add_account_node account node_id s)
unfolding add_account_node
add_account_node-Credits account node_id s v =
    let old = index account no_balance s.balances in
    let trial = index node_id no_balance s.trials in
    let new : Balance = record old { credit = old.credit +ℤ trial.credit; account = account } in
    elim (Option-cases (get node_id s.nodes)) [
      | inl unknown ↦ ground arith
      | inr (n, e) ↦ grind (
        int_laws,
        e,
        total-set credit_of no_balance refl account new s.balances,
        total-remove credit_of no_balance refl node_id s.trials v.trials,
      )
    ]
