-- ===== src/Pretty/Print.antt =====
-- What `Ether.String` loses: zeros at the end of a whole number.
use vipnode.Base.{
  ℕ, zero, suc, ◌+◌, ◌*◌, ◌/◌, ◌%◌, ◌^◌, ◌≤◌, ◌<◌, ◌≡◌, refl, sym, ◌∙◌, ap, Bool, true, false, [],
  ◌∷◌, ◌++◌, arith, All,
}
use native.Mathlib.Decide.{dec_lt}
use vipnode.Int.{pos, ltb_ℤ}
use vipnode.Ethnode.{codes}
use vipnode.Pretty.{
  Text, is_one_of, trim_right, digits_from, digits, float_string, or_zero, denomination,
  ether_string,
}

abbrev cut : ℕ → Bool
cut = is_one_of (48 ∷ 46 ∷ [])

-- What is cut off at the end does not matter.
trim_right-All :
    (keep : ℕ → Bool) (ys : Text) → All (λ c. keep c ≡ true) ys → trim_right keep ys ≡ []
unfolding trim_right
trim_right-All keep [] h = refl
trim_right-All keep (y ∷ ys) (h, more) = ground (arith, h, trim_right-All keep ys more)

trim_right-append :
    (keep : ℕ → Bool) (xs ys : Text)
    → All (λ c. keep c ≡ true) ys
    → trim_right keep (xs ++ ys) ≡ trim_right keep xs
unfolding trim_right
trim_right-append keep [] ys h = trim_right-All keep ys h
trim_right-append keep (x ∷ xs) ys h = rw (trim_right-append keep xs ys h) refl

digits_from-step :
    (fuel n : ℕ)
    → 10 ≤ n
    → digits_from (suc fuel) n ≡ digits_from fuel (n / 10) ++ ((48 + n % 10) ∷ [])
unfolding digits_from
digits_from-step fuel n h = ground (arith, h)

digits_from-small : (fuel n : ℕ) → n < 10 → digits_from (suc fuel) n ≡ (48 + n) ∷ []
unfolding digits_from
digits_from-small fuel n h = ground (arith, h)

-- More fuel changes nothing.
digits_from-fuel : (f g n : ℕ) → n < f → n < g → digits_from f n ≡ digits_from g n
digits_from-fuel zero g n p q = absurd (omega (arith, p))
digits_from-fuel (suc f) zero n p q = absurd (omega (arith, q))
digits_from-fuel (suc f) (suc g) n p q = elim (dec_lt n 10) [
  | yes small ↦ digits_from-small f n small ∙ sym (digits_from-small g n small)
  | no large ↦
      let big : 10 ≤ n = omega (arith, large) in
      digits_from-step f n big
      ∙ ap (λ front. front ++ ((48 + n % 10) ∷ []))
          (digits_from-fuel f g (n / 10) (omega (arith, p, big)) (omega (arith, q, big)))
      ∙ sym (digits_from-step g n big)
]

digits-tenfold : (n : ℕ) → 0 < n → digits (n * 10) ≡ digits n ++ (48 ∷ [])
digits-tenfold n h =
    let front : n * 10 / 10 ≡ n = omega arith in
    let last : 48 + n * 10 % 10 ≡ 48 = omega arith in
    digits_from-step (n * 10) (n * 10) (omega (arith, h))
    ∙ rw (front, last)
        (ap (λ t. t ++ (48 ∷ []))
          (digits_from-fuel (n * 10) (suc n) n (omega (arith, h)) (omega arith)))

float_string-whole :
    (n : ℕ) → float_string (pos (n * 10 ^ 18)) (10 ^ 18) ≡ digits n ++ (46 ∷ 48 ∷ 48 ∷ 48 ∷ 48 ∷ [])
unfolding float_string
float_string-whole n =
    let rounded : ((n * 10 ^ 18 + 0) * 10000 * 2 + 10 ^ 18) / (10 ^ 18 * 2) ≡ n * 10000 =
      omega arith in
    let front : n * 10000 / 10000 ≡ n = omega arith in
    let rest : n * 10000 % 10000 ≡ 0 = omega arith in
    let positive : ltb_ℤ (pos (n * 10 ^ 18)) (pos 0) ≡ false = ground arith in
    rw (positive, rounded, front, rest) refl

ether_string-whole :
    (n : ℕ)
    → 0 < n
    → ether_string (pos (n * 10 ^ 18)) ≡ or_zero (trim_right cut (digits n)) ++ codes " ether"
unfolding ether_string
ether_string-whole n h =
    let unit : denomination (pos (n * 10 ^ 18)) ≡ (codes " ether", 10 ^ 18) = ground (arith, h) in
    let zeros =
      trim_right-append cut (digits n) (46 ∷ 48 ∷ 48 ∷ 48 ∷ 48 ∷ [])
        (refl, (refl, (refl, (refl, (refl, tt))))) in
    ap (λ (p : Text × ℕ). or_zero (trim_right cut (float_string (pos (n * 10 ^ 18)) p.1)) ++ p.0)
      unit
    ∙ ap (λ t. or_zero (trim_right cut t) ++ codes " ether") (float_string-whole n)
    ∙ ap (λ t. or_zero t ++ codes " ether") zeros

-- Whole amounts of ether above 0: ten times as much is written as the same text.
pub ether_string-tenfold :
    (n : ℕ) → 0 < n → ether_string (pos (n * 10 * 10 ^ 18)) ≡ ether_string (pos (n * 10 ^ 18))
ether_string-tenfold n h =
    ether_string-whole (n * 10) (omega (arith, h))
    ∙ ap (λ t. or_zero t ++ codes " ether")
        (ap (trim_right cut) (digits-tenfold n h)
          ∙ trim_right-append cut (digits n) (48 ∷ []) (refl, tt))
    ∙ sym (ether_string-whole n h)
