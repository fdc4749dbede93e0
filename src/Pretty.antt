-- ===== src/Pretty.antt =====
-- internal/pretty/ether.go and abbrev.go: amounts of wei as texts. A text is its list of code points.
pub mod Parse
pub mod Print
use vipnode.Base.{
  ℕ, zero, suc, ◌+◌, ◌-◌, ◌*◌, ◌/◌, ◌%◌, ◌^◌, Bool, true, false, ◌&&◌, ◌||◌, not, Option, none,
  some, List, [], ◌∷◌, ◌++◌, String, ltb, leb, nat_eq, length, take, map, if◌then◌else◌,
}
use vipnode.Base.Exec.{Result, ok, err, Error, external, panic}
use vipnode.Int.{ℤ, pos, negsuc, pos_part, neg_part, ◌-ℤ◌, ◌*ℤ◌, ◌/ℤ◌, ltb_ℤ}
use vipnode.Ethnode.{codes, lower, same}

abbrev pub Text : Type 0
Text = List ℕ

abbrev pub is_digit : ℕ → Bool
is_digit c = leb 48 c && leb c 57

abbrev pub is_one_of : List ℕ → ℕ → Bool
is_one_of [] c = false
is_one_of (d ∷ ds) c = nat_eq c d || is_one_of ds c

-- `unicode.IsSpace`
abbrev pub is_space : ℕ → Bool
is_space c =
    (leb 9 c && leb c 13)
    || is_one_of (32 ∷ 133 ∷ 160 ∷ 5760 ∷ 8232 ∷ 8233 ∷ 8239 ∷ 8287 ∷ 12288 ∷ []) c
    || (leb 8192 c && leb c 8202)

abbrev pub is_empty : Text → Bool
is_empty [] = true
is_empty _ = false

-- `strings.TrimRightFunc` and `strings.TrimLeftFunc`
unfoldable pub trim_right : (ℕ → Bool) → Text → Text
trim_right cut [] = []
trim_right cut (c ∷ cs) =
    let rest = trim_right cut cs in if is_empty rest && cut c then [] else c ∷ rest

unfoldable pub trim_left : (ℕ → Bool) → Text → Text
trim_left cut [] = []
trim_left cut (c ∷ cs) = let rest = trim_left cut cs in if cut c then rest else c ∷ cs

abbrev pub trim_space : Text → Text
trim_space s = trim_right is_space (trim_left is_space s)

-- A decimal number: its digits as one number, and how many of them stand after the point.
pub record Decimal : Type 0 where
  pub negative : Bool
  pub all_digits : ℕ
  pub places : ℕ

-- The state of a scan: the digits so far, whether there is one, and the places after a point.
pub record Scan : Type 0 where
  pub digits_read : ℕ
  pub any_digit : Bool
  pub after_point : Option ℕ

abbrev pub one_more_place : Option ℕ → Option ℕ
one_more_place none = none
one_more_place (some n) = some (suc n)

abbrev pub put_point : Option ℕ → Scan → Option Scan
put_point none st = some (record st { after_point = some 0 })
put_point (some n) st = none

abbrev pub scan_char : ℕ → Scan → Option Scan
scan_char c st =
    if is_digit c
    then some (record {
      digits_read = st.digits_read * 10 + (c - 48);
      any_digit = true;
      after_point = one_more_place st.after_point;
    })
    else if nat_eq c 46
    then put_point st.after_point st
    else none

unfoldable pub scan : Text → Scan → Option Scan
scan [] st = some st
scan (c ∷ cs) st = elim (scan_char c st) [ none ↦ none | some next ↦ scan cs next ]

abbrev pub places_of : Option ℕ → ℕ
places_of none = 0
places_of (some n) = n

abbrev pub scanned : Bool → Option Scan → Option Decimal
scanned negative none = none
scanned negative (some st) =
    if st.any_digit
    then some (record {
      negative = negative;
      all_digits = st.digits_read;
      places = places_of st.after_point;
    })
    else none

abbrev pub empty_scan : Scan
empty_scan = record { digits_read = 0; any_digit = false; after_point = none }

-- `(*big.Rat).SetString` of a text of digits, dashes and points
unfoldable pub set_rat : Text → Option Decimal
unfolding scan
set_rat [] = none
set_rat (c ∷ cs) =
    if nat_eq c 45
    then scanned true (scan cs empty_scan)
    else scanned false (scan (c ∷ cs) empty_scan)

-- The factor of a unit. The case of wei leaves the factor at 0.
unfoldable pub multiplier : Text → Option ℕ
multiplier unit =
    if same unit (codes "wei")
    then some 0
    else if same unit (codes "kwei") || same unit (codes "babbage")
    then some (10 ^ 3)
    else if same unit (codes "mwei") || same unit (codes "lovelace")
    then some (10 ^ 6)
    else if same unit (codes "gwei") || same unit (codes "shannon")
    then some (10 ^ 9)
    else if same unit (codes "microether") || same unit (codes "szabo")
    then some (10 ^ 12)
    else if same unit (codes "milliether") || same unit (codes "finney")
    then some (10 ^ 15)
    else if same unit (codes "ether") || same unit (codes "eth")
    then some (10 ^ 18)
    else none

abbrev pub signed : Bool → ℕ → ℤ
signed true n = pos 0 -ℤ pos n
signed false n = pos n

-- `Div` of the product, which rounds down
unfoldable pub in_wei : Decimal → ℕ → ℤ
in_wei d factor = (signed d.negative d.all_digits *ℤ pos factor) /ℤ (10 ^ d.places)

-- The errors without the text that they quote.
abbrev pub bad_value : Error
bad_value = external "failed to parse ether value"

abbrev pub bad_unit : Error
bad_unit = external "failed to parse ether unit"

-- `unicode.IsNumber` beyond ASCII and `(*big.Int).SetString` with base 0 are parameters.
module _ (is_other_number : ℕ → Bool) (set_int : Text → Option ℤ) where
  abbrev pub is_number_char : ℕ → Bool
  is_number_char c = is_digit c || (leb 128 c && is_other_number c) || nat_eq c 45 || nat_eq c 46

  unfoldable pub split_number : Text → Text × Text
  split_number [] = ([], [])
  split_number (c ∷ cs) =
      let (number, unit) = split_number cs in
      if is_number_char c then (c ∷ number, unit) else ([], c ∷ cs)

  abbrev pub parse_wei : Option ℤ → Result ℤ
  parse_wei none = err bad_value
  parse_wei (some n) = ok n

  abbrev pub apply_unit : Option Decimal → Option ℕ → Result ℤ
  apply_unit none factor = err bad_value
  apply_unit (some d) none = err bad_unit
  apply_unit (some d) (some factor) = ok (in_wei d factor)

  -- `ParseEther`. A text without a unit, or without a number before it, is a number of wei.
  unfoldable pub parse_ether : Text → Result ℤ
  unfolding split_number set_rat multiplier in_wei
  parse_ether s =
      let (number, unit) = split_number s in
      if is_empty number || is_empty unit
      then parse_wei (set_int s)
      else apply_unit (set_rat number) (multiplier (map lower (trim_space unit)))

-- The decimal digits, with fuel.
unfoldable pub digits_from : ℕ → ℕ → Text
digits_from zero n = []
digits_from (suc fuel) n =
    let front = digits_from fuel (n / 10) in
    if ltb n 10 then (48 + n) ∷ [] else front ++ ((48 + n % 10) ∷ [])

abbrev pub digits : ℕ → Text
digits n = digits_from (suc n) n

abbrev pub four_digits : ℕ → Text
four_digits n = (48 + n / 1000) ∷ (48 + n / 100 % 10) ∷ (48 + n / 10 % 10) ∷ (48 + n % 10) ∷ []

-- `(*big.Rat).FloatString(4)` of a fraction: half is rounded away from 0.
unfoldable pub float_string : ℤ → ℕ → Text
unfolding digits_from
float_string i denom =
    let size = pos_part i + neg_part i in
    let rounded = (size * 10000 * 2 + denom) / (denom * 2) in
    let text = digits (rounded / 10000) ++ (46 ∷ four_digits (rounded % 10000)) in
    if ltb_ℤ i (pos 0) then 45 ∷ text else text

abbrev pub or_zero : Text → Text
or_zero [] = 48 ∷ []
or_zero (c ∷ cs) = c ∷ cs

-- The unit and its size in wei that an amount is written in.
abbrev pub denomination : ℤ → Text × ℕ
denomination i =
    let size = pos_part i + neg_part i in
    if leb (10 ^ 14) size
    then (codes " ether", 10 ^ 18)
    else if leb (10 ^ 5) size
    then (codes " gwei", 10 ^ 9)
    else (codes " wei", 1)

-- `Ether.String`
unfoldable pub ether_string : ℤ → Text
unfolding float_string trim_right
ether_string i =
    let (unit, denom) = denomination i in
    or_zero (trim_right (is_one_of (48 ∷ 46 ∷ [])) (float_string i denom)) ++ unit

-- `Abbreviated.String`, over bytes; "…" is three of them. A slice beyond the end panics.
abbrev pub slice_to : ℕ → Text → Result Text
slice_to n s = if ltb (length s) n then err (panic "slice bounds out of range") else ok (take n s)

unfoldable pub abbreviated : ℕ → ℕ → Text → Result Text
abbreviated max_len cut_to s =
    if ltb max_len (length s)
    then elim (slice_to cut_to s) [ ok t ↦ ok (t ++ (226 ∷ 128 ∷ 166 ∷ [])) | err e ↦ err e ]
    else ok s
