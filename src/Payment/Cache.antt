-- ===== src/Payment/Cache.antt =====
-- pool/payment/cache.go: a cache of balances whose entries expire.
use vipnode.Base.{
  String, Bool, true, false, ◌||◌, ◌≡◌, none, some, [], if_keeps, refl, if◌then◌else◌, arith,
}
use vipnode.Base.Exec.{Exec, Result, ok, err, Error}
use vipnode.Int.{ℤ, pos, ◌+ℤ◌, eqb_ℤ}
use vipnode.Dict.{Dict, get, set, remove, get_self, get_removed}
use vipnode.Clock.{Time, before, zero_time}

-- `balanceItem`
pub record BalanceItem : Type 0 where
  pub value : ℤ
  pub expire : Time

-- `balanceCache`; a missing map holds nothing.
pub record BalanceCache : Type 0 where
  pub expire_after : ℤ
  pub cache : Dict BalanceItem

-- `Reset`
unfoldable pub reset : ℤ → BalanceCache → BalanceCache
reset expire_after b = record { expire_after = expire_after; cache = [] }

abbrev pub is_fresh : Time → BalanceItem → Bool
is_fresh now r = eqb_ℤ r.expire zero_time || before now r.expire

-- `Set`
unfoldable pub set_balance : Time → String → ℤ → BalanceCache → BalanceCache
set_balance now account amount b = record b {
  cache =
      set account
        (record {
          value = amount;
          expire = if eqb_ℤ b.expire_after (pos 0) then zero_time else now +ℤ b.expire_after;
        })
        b.cache;
}

-- The call of the getter and the write of what it finds; the clock is read again.
unfoldable pub fetch : (String → Result ℤ) → Time → String → Exec BalanceCache ℤ
unfolding set_balance
fetch getter later account b = elim (getter account) [
  | err e ↦ (err e, b)
  | ok amount ↦ (ok amount, set_balance later account amount b)
]

-- `Get`
unfoldable pub get_balance : (String → Result ℤ) → Time → Time → String → Exec BalanceCache ℤ
unfolding fetch
get_balance getter now later account b = elim (get account b.cache) [
  | none ↦ fetch getter later account b
  | some r ↦
      if is_fresh now r
      then (ok r.value, b)
      else fetch getter later account (record b { cache = remove account b.cache })
]

-- The outcome of a `Get` at `now`, with the getter's answer, for a cached value and its expiry.
abbrev pub Outcome :
    (getter : String → Result ℤ) (now later : Time) (account : String) (amount : ℤ) (expires : Time)
    → BalanceCache
    → Result ℤ × BalanceCache
    → Type 0
Outcome getter now later account amount expires b (r, b') =
    (eqb_ℤ b.expire_after (pos 0) ≡ true → (r ≡ ok amount) × (b' ≡ b))
    × (before now expires ≡ true → (r ≡ ok amount) × (b' ≡ b))
    × (eqb_ℤ b.expire_after (pos 0) ≡ false
        → before now expires ≡ false
        → (r ≡ getter account)
          × ((e : Error) → getter account ≡ err e → get account b'.cache ≡ none)
          × ((found : ℤ)
              → getter account ≡ ok found
              → get account b'.cache
                ≡ some (record { value = found; expire = later +ℤ b.expire_after })))

-- A balance that was set is returned until it expires, without a call of the getter; from then on
-- the getter is called: what it finds is returned and cached anew, and its error leaves no entry. A
-- cache without an expiry keeps its entries for ever. The time at which it expires is not the zero
-- time, which stands for none.
pub get_balance_lem :
    (getter : String → Result ℤ) (set_at now later : Time) (account : String) (amount : ℤ)
    (b : BalanceCache)
    → eqb_ℤ (set_at +ℤ b.expire_after) zero_time ≡ false
    → let b' = set_balance set_at account amount b in
      Outcome getter now later account amount
        (set_at +ℤ b.expire_after)
        b'
        (get_balance getter now later account b')
unfolding get_balance fetch set_balance
get_balance_lem getter set_at now later account amount b sane =
    let e = b.expire_after in
    let item : BalanceItem = record {
      value = amount;
      expire = if eqb_ℤ e (pos 0) then zero_time else set_at +ℤ e;
    } in
    let cached = set account item b.cache in
    rw (get_self account item b.cache, get_balance)
      (if_keeps
        (Outcome getter now later account amount (set_at +ℤ e) (record b { cache = cached }))
        (is_fresh now item) _ _
        (λ fresh. (
          (λ _. (refl, refl)),
          (λ _. (refl, refl)),
          (λ lasting late. ground (arith, fresh, lasting, late, sane)),
        ))
        (λ stale. (
          (λ z. ground (arith, stale, z)),
          (λ early. ground (arith, stale, early, sane)),
          (λ lasting late. (
            ground arith,
            (λ x k. ground (arith, k, get_removed account cached)),
            (λ found k. ground (
              arith,
              k,
              get_self account (record { value = found; expire = later +ℤ e })
                  (remove account cached),
            )),
          )),
        )))
