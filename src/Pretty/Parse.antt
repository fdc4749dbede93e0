-- ===== src/Pretty/Parse.antt =====
-- What `ParseEther` makes of a decimal number with a unit.
use mathlib.Core.List.{append-nil}
use vipnode.Base.{
  ℕ, suc, ◌+◌, ◌-◌, ◌*◌, ◌^◌, ◌≡◌, refl, sym, ◌∙◌, ap, subst, Bool, true, false, ◌||◌, not, Option,
  none, some, [], ◌∷◌, ◌++◌, map, arith, nat_eq, All, length,
}
use vipnode.Base.Exec.{ok}
use vipnode.Int.{ℤ, pos, negsuc, ◌*ℤ◌, ◌/ℤ◌}
use vipnode.Ethnode.{codes, lower}
use vipnode.Pretty.{
  Text, is_digit, is_empty, trim_space, trim_left, trim_right, Scan, one_more_place, scan_char,
  scan, places_of, empty_scan, set_rat, multiplier, signed, in_wei, is_number_char, split_number,
  parse_ether,
}

-- The value of digits, after those before.
abbrev pub value_from : ℕ → Text → ℕ
value_from v [] = v
value_from v (c ∷ cs) = value_from (v * 10 + (c - 48)) cs

abbrev pub AreDigits : Text → Type 0
AreDigits = All (λ c. is_digit c ≡ true)

abbrev pub sign_text : Bool → Text
sign_text true = 45 ∷ []
sign_text false = []

-- The part after the point, with it.
abbrev pub fraction_text : Option Text → Text
fraction_text none = []
fraction_text (some fs) = 46 ∷ fs

abbrev pub fraction_digits : Option Text → Text
fraction_digits none = []
fraction_digits (some fs) = fs

value_from-append :
    (v : ℕ) (xs ys : Text) → value_from v (xs ++ ys) ≡ value_from (value_from v xs) ys
value_from-append v [] ys = refl
value_from-append v (x ∷ xs) ys = value_from-append (v * 10 + (x - 48)) xs ys

abbrev add_places : ℕ → Option ℕ → Option ℕ
add_places k none = none
add_places k (some n) = some (k + n)

add_places-one :
    (k : ℕ) (after : Option ℕ) → add_places k (one_more_place after) ≡ add_places (suc k) after
add_places-one k none = refl
add_places-one k (some n) = ap some (omega arith)

add_places-zero : (after : Option ℕ) → add_places 0 after ≡ after
add_places-zero none = refl
add_places-zero (some n) = ap some (omega arith)

or_true : (b : Bool) → (b || true) ≡ true
or_true true = refl
or_true false = refl

-- The state after some digits.
abbrev after_digits : Text → Scan → Scan
after_digits ds st = record {
  digits_read = value_from st.digits_read ds;
  any_digit = not (is_empty ds) || st.any_digit;
  after_point = add_places (length ds) st.after_point;
}

scan_char-digit :
    (c : ℕ) (st : Scan)
    → is_digit c ≡ true
    → scan_char c st
      ≡ some (record {
        digits_read = st.digits_read * 10 + (c - 48);
        any_digit = true;
        after_point = one_more_place st.after_point;
      })
scan_char-digit c st h = rw h refl

scan-digits :
    (ds rest : Text) (st : Scan)
    → AreDigits ds
    → scan (ds ++ rest) st ≡ scan rest (after_digits ds st)
unfolding scan
scan-digits [] rest st h = rw (add_places-zero st.after_point) refl
scan-digits (d ∷ ds) rest st (digit, more) =
    let next : Scan = record {
      digits_read = st.digits_read * 10 + (d - 48);
      any_digit = true;
      after_point = one_more_place st.after_point;
    } in
    rw (scan_char-digit d st digit, scan)
      (scan-digits ds rest next more
        ∙ rw (or_true (not (is_empty ds)), add_places-one (length ds) st.after_point) refl)

-- The text of a number: its sign, at least one whole digit, and its fraction.
abbrev pub number_text : Bool → ℕ → Text → Option Text → Text
number_text negative w ws frac = sign_text negative ++ (w ∷ (ws ++ fraction_text frac))

scan-number :
    (w : ℕ) (ws : Text) (frac : Option Text)
    → AreDigits (w ∷ ws)
    → AreDigits (fraction_digits frac)
    → (st : Scan) × (scan (w ∷ (ws ++ fraction_text frac)) empty_scan ≡ some st)
      × (st.digits_read ≡ value_from 0 ((w ∷ ws) ++ fraction_digits frac))
      × (st.any_digit ≡ true)
      × (places_of st.after_point ≡ length (fraction_digits frac))
unfolding scan
scan-number w ws none whole part =
    let st = after_digits (w ∷ ws) empty_scan in
    (
      st,
      scan-digits (w ∷ ws) [] empty_scan whole,
      sym (ap (value_from 0) (append-nil (w ∷ ws))),
      refl,
      refl,
    )
scan-number w ws (some fs) whole part =
    let st = after_digits (w ∷ ws) empty_scan in
    let dotted : Scan = record st { after_point = some 0 } in
    let last = after_digits fs dotted in
    (
      last,
      scan-digits (w ∷ ws) (46 ∷ fs) empty_scan whole
          ∙ ap (λ l. scan l dotted) (sym (append-nil fs))
          ∙ scan-digits fs [] dotted part,
      sym (value_from-append 0 (w ∷ ws) fs),
      or_true (not (is_empty fs)),
      omega arith,
    )

set_rat-number :
    (negative : Bool) (w : ℕ) (ws : Text) (frac : Option Text)
    → AreDigits (w ∷ ws)
    → AreDigits (fraction_digits frac)
    → set_rat (number_text negative w ws frac)
      ≡ some (record {
        negative = negative;
        all_digits = value_from 0 ((w ∷ ws) ++ fraction_digits frac);
        places = length (fraction_digits frac);
      })
unfolding set_rat
set_rat-number true w ws frac whole part =
    let (st, done, value, any, places) = scan-number w ws frac whole part in
    rw (done, any, value, places) refl
set_rat-number false w ws frac whole part =
    let (st, done, value, any, places) = scan-number w ws frac whole part in
    let unsigned : nat_eq w 45 ≡ false = ground (arith, whole.0) in
    rw (unsigned, done, any, value, places) refl

nonempty :
    (negative : Bool) (w : ℕ) (ws : Text) (frac : Option Text)
    → is_empty (number_text negative w ws frac) ≡ false
nonempty true w ws frac = refl
nonempty false w ws frac = refl

module _ (is_other_number : ℕ → Bool) (set_int : Text → Option ℤ) where
  split_number-append :
      (number : Text) (c : ℕ) (unit : Text)
      → All (λ d. is_number_char is_other_number set_int d ≡ true) number
      → is_number_char is_other_number set_int c ≡ false
      → split_number is_other_number set_int (number ++ (c ∷ unit)) ≡ (number, c ∷ unit)
  unfolding split_number
  split_number-append [] c unit h stop = rw stop refl
  split_number-append (d ∷ number) c unit (h, more) stop =
      rw (h, split_number-append number c unit more stop) refl

  digits-number :
      (ds rest : Text)
      → AreDigits ds
      → All (λ d. is_number_char is_other_number set_int d ≡ true) rest
      → All (λ d. is_number_char is_other_number set_int d ≡ true) (ds ++ rest)
  digits-number [] rest h k = k
  digits-number (d ∷ ds) rest (h, more) k = (rw h refl, digits-number ds rest more k)

  fraction-number :
      (frac : Option Text)
      → AreDigits (fraction_digits frac)
      → All (λ d. is_number_char is_other_number set_int d ≡ true) (fraction_text frac)
  fraction-number none h = tt
  fraction-number (some fs) h = (
    ground arith,
    subst (All (λ d. is_number_char is_other_number set_int d ≡ true)) (append-nil fs)
        (digits-number fs [] h tt),
  )

  number_text-number :
      (negative : Bool) (w : ℕ) (ws : Text) (frac : Option Text)
      → AreDigits (w ∷ ws)
      → AreDigits (fraction_digits frac)
      → All (λ d. is_number_char is_other_number set_int d ≡ true) (number_text negative w ws frac)
  number_text-number true w ws frac whole part =
      (ground arith, digits-number (w ∷ ws) (fraction_text frac) whole (fraction-number frac part))
  number_text-number false w ws frac whole part =
      digits-number (w ∷ ws) (fraction_text frac) whole (fraction-number frac part)

-- A decimal number, with or without a sign and a fraction, followed by a text that does not go on with
-- a character of a number and that is, trimmed and in lower case, a unit: `ParseEther` gives the number
-- times the factor of the unit, rounded down to whole wei.
pub parse_ether-number :
    (is_other_number : ℕ → Bool) (set_int : Text → Option ℤ) (negative : Bool) (w : ℕ) (ws : Text)
    (frac : Option Text) (c : ℕ) (unit : Text) (factor : ℕ)
    → AreDigits (w ∷ ws)
    → AreDigits (fraction_digits frac)
    → is_number_char is_other_number set_int c ≡ false
    → multiplier (map lower (trim_space (c ∷ unit))) ≡ some factor
    → parse_ether is_other_number set_int (number_text negative w ws frac ++ (c ∷ unit))
      ≡ ok (
          (signed negative (value_from 0 ((w ∷ ws) ++ fraction_digits frac)) *ℤ pos factor)
          /ℤ (10 ^ length (fraction_digits frac)))
unfolding parse_ether in_wei
parse_ether-number is_other_number set_int negative w ws frac c unit factor whole part stop known =
    rw
      (
        split_number-append is_other_number set_int (number_text negative w ws frac) c unit
            (number_text-number is_other_number set_int negative w ws frac whole part) stop,
        nonempty negative w ws frac,
        set_rat-number negative w ws frac whole part,
        known,
      )
      refl

times_zero : (a : ℤ) → (a *ℤ pos 0) /ℤ 1 ≡ pos 0
unfolding ◌*ℤ◌ ◌/ℤ◌
times_zero (pos n) = ground arith
times_zero (negsuc n) = ground arith

-- Whatever whole number of wei is written with its unit, `ParseEther` gives 0.
pub parse_ether-wei :
    (is_other_number : ℕ → Bool) (set_int : Text → Option ℤ) (negative : Bool) (w : ℕ) (ws : Text)
    → AreDigits (w ∷ ws)
    → parse_ether is_other_number set_int (number_text negative w ws none ++ codes " wei")
      ≡ ok (pos 0)
unfolding multiplier lower trim_left trim_right
parse_ether-wei is_other_number set_int negative w ws whole =
    parse_ether-number is_other_number set_int negative w ws none 32 (codes "wei") 0 whole tt refl
      refl
    ∙ ap ok (times_zero (signed negative (value_from 0 (w ∷ (ws ++ [])))))
