-- ===== src/Badger/Keys.antt =====
-- The keys of the database: each kind of entry has its own prefix.
use Prim.Native.String.{◌++◌, slice}
use text.Mathlib.TextPositions.{slice-append_left}
use text.Mathlib.TextLemmas.{append_assoc, append_cancel_left}
use vipnode.Base.{
  ℕ, String, Bool, ◌&&◌, ◌≡◌, refl, ap, sym, ◌∙◌, ◌==◌, true, false, arith, eq_iff, nat_eq,
  if◌then◌else◌, Bool-cases, inl, inr,
}

pub data Kind : Type 0 where
  nonce account trial balance node peers version : Kind

abbrev pub prefix : Kind → String
prefix nonce = "vip:nonce:"
prefix account = "vip:account:"
prefix trial = "vip:trial:"
prefix balance = "vip:balance:"
prefix node = "vip:node:"
prefix peers = "vip:peers:"
prefix version = "vip:version"

-- The `fmt.Sprintf` calls; the key of the version is the prefix itself.
unfoldable pub print_key : Kind → String → String
print_key kind id = prefix kind ++ id

abbrev pub code : Kind → ℕ
code nonce = 0
code account = 1
code trial = 2
code balance = 3
code node = 4
code peers = 5
code version = 6

-- The first seven bytes tell the kinds apart.
abbrev tag : Kind → String
tag nonce = "vip:non"
tag account = "vip:acc"
tag trial = "vip:tri"
tag balance = "vip:bal"
tag node = "vip:nod"
tag peers = "vip:pee"
tag version = "vip:ver"

abbrev rest : Kind → String
rest nonce = "ce:"
rest account = "ount:"
rest trial = "al:"
rest balance = "ance:"
rest node = "e:"
rest peers = "rs:"
rest version = "sion"

abbrev of_tag : String → ℕ
of_tag s =
    if s == "vip:non"
    then 0
    else if s == "vip:acc"
    then 1
    else if s == "vip:tri"
    then 2
    else if s == "vip:bal"
    then 3
    else if s == "vip:nod"
    then 4
    else if s == "vip:pee"
    then 5
    else 6

cut : (kind : Kind) → prefix kind ≡ tag kind ++ rest kind
cut nonce = refl
cut account = refl
cut trial = refl
cut balance = refl
cut node = refl
cut peers = refl
cut version = refl

seven : (kind : Kind) (s : String) → slice (tag kind ++ s) 0 7 ≡ tag kind
seven nonce s = slice-append_left "vip:non" s
seven account s = slice-append_left "vip:acc" s
seven trial s = slice-append_left "vip:tri" s
seven balance s = slice-append_left "vip:bal" s
seven node s = slice-append_left "vip:nod" s
seven peers s = slice-append_left "vip:pee" s
seven version s = slice-append_left "vip:ver" s

code-of_tag : (kind : Kind) → of_tag (tag kind) ≡ code kind
code-of_tag nonce = refl
code-of_tag account = refl
code-of_tag trial = refl
code-of_tag balance = refl
code-of_tag node = refl
code-of_tag peers = refl
code-of_tag version = refl

code-print_key : (kind : Kind) (id : String) → of_tag (slice (print_key kind id) 0 7) ≡ code kind
unfolding print_key
code-print_key kind id =
    ap (λ s. of_tag (slice (s ++ id) 0 7)) (cut kind)
    ∙ ap (λ s. of_tag (slice s 0 7)) (append_assoc (tag kind) (rest kind) id)
    ∙ ap of_tag (seven kind (rest kind ++ id))
    ∙ code-of_tag kind

abbrev of_code : ℕ → String
of_code n =
    if nat_eq n 0
    then "vip:nonce:"
    else if nat_eq n 1
    then "vip:account:"
    else if nat_eq n 2
    then "vip:trial:"
    else if nat_eq n 3
    then "vip:balance:"
    else if nat_eq n 4
    then "vip:node:"
    else if nat_eq n 5
    then "vip:peers:"
    else "vip:version"

prefix-code : (kind : Kind) → of_code (code kind) ≡ prefix kind
prefix-code nonce = refl
prefix-code account = refl
prefix-code trial = refl
prefix-code balance = refl
prefix-code node = refl
prefix-code peers = refl
prefix-code version = refl

same_prefix : (k j : Kind) → code k ≡ code j → prefix k ≡ prefix j
same_prefix k j e = sym (prefix-code k) ∙ (ap of_code e ∙ prefix-code j)

print_key-injective :
    (k j : Kind) (a b : String) → print_key k a ≡ print_key j b → (code k ≡ code j) × (a ≡ b)
unfolding print_key
print_key-injective k j a b e =
    let same = sym (code-print_key k a) ∙ (ap (λ s. of_tag (slice s 0 7)) e ∙ code-print_key j b) in
    (same, append_cancel_left (prefix j) a b (ap (λ p. p ++ a) (sym (same_prefix k j same)) ∙ e))

print_key_same :
    (k j : Kind) (a b : String) → code k ≡ code j → a ≡ b → print_key k a ≡ print_key j b
unfolding print_key
print_key_same k j a b e f = ap (λ p. p ++ a) (same_prefix k j e) ∙ ap (λ s. prefix j ++ s) f

codes_eq : {m n : ℕ} → m ≡ n → (nat_eq m n && true) ≡ true
codes_eq e = ground arith

absurd_eq : {x : Bool} {y : Bool} → x ≡ true → x ≡ false → x ≡ y
absurd_eq t f = cc

-- Two keys are the same exactly if they are of one kind and for one name.
pub eq-print_key :
    (k j : Kind) (a b : String)
    → (print_key k a == print_key j b) ≡ (nat_eq (code k) (code j) && (a == b))
eq-print_key k j a b = elim (Bool-cases (print_key k a == print_key j b)) [
  | inl same ↦
      let (kinds, ids) =
        print_key-injective k j a b ((eq_iff (print_key k a) (print_key j b)).0 same) in
      same ∙ sym (ap (λ x. nat_eq (code k) (code j) && x) ((eq_iff a b).1 ids) ∙ codes_eq kinds)
  | inr other ↦ elim (Bool-cases (nat_eq (code k) (code j) && (a == b))) [
    | inr no_match ↦ other ∙ sym no_match
    | inl match ↦
        let ids = (eq_iff a b).0 (ground (arith, match)) in
        let same =
          (eq_iff (print_key k a) (print_key j b)).1
            (print_key_same k j a b (ground (arith, match)) ids) in
        absurd_eq same other
  ]
]
