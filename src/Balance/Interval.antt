-- ===== src/Balance/Interval.antt =====
-- `intervalCredit`: how the credit of an interval compares with that of its parts.
use vipnode.Base.{ℕ, ◌+◌, ◌*◌, ◌/◌, ◌≤◌, ◌<◌, ◌≡◌, ◌^◌, arith}
use native.Mathlib.Nat.{
  le-div_iff_mul-le, div-lt_iff_lt-mul, div-mul-le_self, lt-mul-div-succ, mul_comm,
}
use vipnode.Int.{pos, ◌+ℤ◌, ◌-ℤ◌, ◌*ℤ◌, ◌/ℤ◌, ◌≤ℤ◌}
use vipnode.Clock.{sub_time}
use vipnode.Balance.{PayPerInterval, interval_credit}

ge_of_lt-mul : (x n q : ℕ) → 0 < n → x < n * (q + 1) → x / n ≤ q
ge_of_lt-mul x n q h lt = omega (
  arith,
  (div-lt_iff_lt-mul {k = n} {x = x} {y = q + 1} h).1 (omega (arith, lt, mul_comm n (q + 1))),
)

-- Quotients of parts fall short of the quotient of the whole by at most 1.
div_split : (x y n : ℕ) → 0 < n → (x / n + y / n ≤ (x + y) / n) × ((x + y) / n ≤ x / n + y / n + 1)
div_split x y n h = (
  (le-div_iff_mul-le h).1 (grind (arith, div-mul-le_self x n, div-mul-le_self y n)),
  ge_of_lt-mul (x + y) n (x / n + y / n + 1) h
      (grind (arith, lt-mul-div-succ x h, lt-mul-div-succ y h)),
)

sub_time_pos : (t d : ℕ) → d < 2 ^ 63 → sub_time (pos (t + d)) (pos t) ≡ pos d
unfolding sub_time ◌-ℤ◌
sub_time_pos t d h = ground arith

mul_pos : (a b : ℕ) → pos a *ℤ pos b ≡ pos (a * b)
unfolding ◌*ℤ◌
mul_pos a b = ground arith

module _ (b : PayPerInterval) (n rate : ℕ) (hn : b.interval ≡ pos n)
    (hr : b.credit_per_interval ≡ pos rate) where
  interval_credit_pos :
      (t d : ℕ) → d < 2 ^ 63 → interval_credit b (pos (t + d)) (pos t) ≡ pos (d * rate / n)
  unfolding interval_credit ◌/ℤ◌
  interval_credit_pos t d h = simp (sub_time_pos t d h, hn, hr, mul_pos)

pos_bounds :
    (x y z : ℕ)
    → x + y ≤ z
    → z ≤ x + y + 1
    → (pos x +ℤ pos y ≤ℤ pos z) × (pos z ≤ℤ pos x +ℤ pos y +ℤ pos 1)
unfolding ◌+ℤ◌
pos_bounds x y z h k = ground arith

-- Reporting in the middle of an interval charges no more than one report at its end, and at most 1
-- less: between times that a duration can tell apart, at a rate and a positive interval.
pub interval_credit_split :
    (b : PayPerInterval) (n rate start d e : ℕ)
    → b.interval ≡ pos n
    → 0 < n
    → b.credit_per_interval ≡ pos rate
    → d + e < 2 ^ 63
    → let first = interval_credit b (pos (start + d)) (pos start) in
      let second = interval_credit b (pos (start + d + e)) (pos (start + d)) in
      let whole = interval_credit b (pos (start + (d + e))) (pos start) in
      (first +ℤ second ≤ℤ whole) × (whole ≤ℤ first +ℤ second +ℤ pos 1)
interval_credit_split b n rate start d e hn n0 hr bound =
    let split = div_split (d * rate) (e * rate) n n0 in
    let whole = interval_credit_pos b n rate hn hr start (d + e) bound in
    let first = interval_credit_pos b n rate hn hr start d (omega arith) in
    let second = interval_credit_pos b n rate hn hr (start + d) e (omega arith) in
    let apart : (d + e) * rate ≡ d * rate + e * rate = grind arith in
    rw (whole, first, second, apart) (pos_bounds _ _ _ split.0 split.1)
