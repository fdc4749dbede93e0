-- ===== src/Badger/Items.antt =====
-- Entries of the database as typed values: what is read after a write.
use vipnode.Base.{
  String, Bool, true, false, ◌&&◌, ◌≡◌, refl, ap, ◌∙◌, Option, none, some, ◌==◌, if◌then◌else◌,
  arith, nat_eq,
}
use vipnode.Base.Exec.{Exec, Result, ok, err, Error, key_not_found}
use vipnode.Badger.{
  Engine, EngineLaws, Coder, IsCoder, get_item, find_item, has_key, set_item, optional, transaction,
  commit_all,
}
use vipnode.Badger.Keys.{Kind, code, print_key, eq-print_key}

pub ap-if :
    {A C : Type 0} (f : A → C) (b : Bool) (x y : A)
    → f (if b then x else y) ≡ (if b then f x else f y)
ap-if f true x y = refl
ap-if f false x y = refl

pub kinds_same : (k : Kind) (i j : String) → (print_key k i == print_key k j) ≡ (i == j)
kinds_same k i j = eq-print_key k k i j ∙ ground arith

pub other_kind :
    (k l : Kind) (i j : String)
    → nat_eq (code k) (code l) ≡ false
    → (print_key k i == print_key l j) ≡ false
other_kind k l i j apart = eq-print_key k l i j ∙ ap (λ b. b && (i == j)) apart

-- What a read means for a type.
abbrev pub value_of : {B T A : Type 0} (e : Engine B T) → Coder B A → Result B → Result (Option A)
value_of e c r = optional e (elim r [ err x ↦ err x | ok v ↦ c.decode v ])

abbrev is_ok : {B : Type 0} → Result B → Bool
is_ok (ok v) = true
is_ok (err x) = false

module _ {B T : Type 0} {e : Engine B T} (laws : EngineLaws e) {A : Type 0} {c : Coder B A}
    (good : IsCoder c) where
  pub set_item_ok : (key : String) (a : A) (t : T) → (set_item e c key a t).0 ≡ ok tt
  unfolding set_item
  set_item_ok key a t =
      let (v, encoded, decoded) = good.decode-encode a in
      rw (encoded, set_item) (laws.write_ok key v t)

  pub read-set_item :
      (key j : String) (a : A) (t : T)
      → (v : B) × (c.decode v ≡ ok a)
        × (e.read j (set_item e c key a t).1 ≡ (if key == j then ok v else e.read j t))
  unfolding set_item
  read-set_item key j a t =
      let (v, encoded, decoded) = good.decode-encode a in
      (v, decoded, rw (encoded, set_item) (laws.read-write key j v t))

  -- A value that was written is found; one that was not written under its key is found as before.
  pub find-set_item :
      (key j : String) (a : A) (t : T)
      → find_item e c j (set_item e c key a t).1
        ≡ (if key == j then ok (some a) else find_item e c j t)
  unfolding find_item get_item
  find-set_item key j a t =
      let (v, decoded, r) = read-set_item key j a t in
      ap (value_of e c) r
      ∙ (ap-if (value_of e c) (key == j) (ok v) (e.read j t)
          ∙ ap (λ x. if key == j then x else value_of e c (e.read j t)) (ap (optional e) decoded))

  pub find-set_item_other :
      {A' : Type 0} (c' : Coder B A') (key j : String) (a : A) (t : T)
      → (key == j) ≡ false
      → find_item e c' j (set_item e c key a t).1 ≡ find_item e c' j t
  unfolding find_item get_item
  find-set_item_other c' key j a t other =
      let (v, decoded, r) = read-set_item key j a t in
      ap (value_of e c') (r ∙ ap (λ b. if b then ok v else e.read j t) other)

  pub has_key-set_item :
      (key j : String) (a : A) (t : T)
      → has_key e j (set_item e c key a t).1 ≡ (if key == j then true else has_key e j t)
  unfolding has_key
  has_key-set_item key j a t =
      let (v, decoded, r) = read-set_item key j a t in
      ap is_ok r ∙ ap-if is_ok (key == j) (ok v) (e.read j t)

  -- The same by the kind of an entry and the name.
  pub find-set_same :
      (k : Kind) (i j : String) (a : A) (t : T)
      → find_item e c (print_key k j) (set_item e c (print_key k i) a t).1
        ≡ (if i == j then ok (some a) else find_item e c (print_key k j) t)
  find-set_same k i j a t =
      find-set_item (print_key k i) (print_key k j) a t
      ∙ ap (λ b. if b then ok (some a) else find_item e c (print_key k j) t) (kinds_same k i j)

  pub find-set_apart :
      {A' : Type 0} (c' : Coder B A') (k l : Kind) (i j : String) (a : A) (t : T)
      → nat_eq (code k) (code l) ≡ false
      → find_item e c' (print_key l j) (set_item e c (print_key k i) a t).1
        ≡ find_item e c' (print_key l j) t
  find-set_apart c' k l i j a t apart =
      find-set_item_other c' (print_key k i) (print_key l j) a t (other_kind k l i j apart)

  pub has_key-set_apart :
      (k l : Kind) (i j : String) (a : A) (t : T)
      → nat_eq (code k) (code l) ≡ false
      → has_key e (print_key l j) (set_item e c (print_key k i) a t).1 ≡ has_key e (print_key l j) t
  has_key-set_apart k l i j a t apart =
      has_key-set_item (print_key k i) (print_key l j) a t
      ∙ ap (λ b. if b then true else has_key e (print_key l j) t) (other_kind k l i j apart)

module _ {B T : Type 0} {e : Engine B T} (laws : EngineLaws e) where
  pub find-delete :
      {A : Type 0} (c : Coder B A) (key j : String) (t : T)
      → find_item e c j (e.delete key t).1 ≡ (if key == j then ok none else find_item e c j t)
  unfolding find_item get_item
  find-delete c key j t =
      ap (value_of e c) (laws.read-delete key j t)
      ∙ ap-if (value_of e c) (key == j) (err key_not_found) (e.read j t)

  pub has_key-delete :
      (key j : String) (t : T)
      → has_key e j (e.delete key t).1 ≡ (if key == j then false else has_key e j t)
  unfolding has_key
  has_key-delete key j t =
      ap is_ok (laws.read-delete key j t) ∙ ap-if is_ok (key == j) (err key_not_found) (e.read j t)

  pub find-delete_same :
      {A : Type 0} (c : Coder B A) (k : Kind) (i j : String) (t : T)
      → find_item e c (print_key k j) (e.delete (print_key k i) t).1
        ≡ (if i == j then ok none else find_item e c (print_key k j) t)
  find-delete_same c k i j t =
      find-delete c (print_key k i) (print_key k j) t
      ∙ ap (λ b. if b then ok none else find_item e c (print_key k j) t) (kinds_same k i j)

  pub find-delete_apart :
      {A : Type 0} (c : Coder B A) (k l : Kind) (i j : String) (t : T)
      → nat_eq (code k) (code l) ≡ false
      → find_item e c (print_key l j) (e.delete (print_key k i) t).1
        ≡ find_item e c (print_key l j) t
  find-delete_apart c k l i j t apart =
      find-delete c (print_key k i) (print_key l j) t
      ∙ ap (λ b. if b then ok none else find_item e c (print_key l j) t) (other_kind k l i j apart)

  pub has_key-delete_apart :
      (k l : Kind) (i j : String) (t : T)
      → nat_eq (code k) (code l) ≡ false
      → has_key e (print_key l j) (e.delete (print_key k i) t).1 ≡ has_key e (print_key l j) t
  has_key-delete_apart k l i j t apart =
      has_key-delete (print_key k i) (print_key l j) t
      ∙ ap (λ b. if b then false else has_key e (print_key l j) t) (other_kind k l i j apart)

  pub transaction-ok : {A : Type 0} (a : A) (t u : T) → commit_all e (ok a) t u ≡ (ok a, u)
  transaction-ok a t u =
      ap (λ o. elim o [ none ↦ (ok a, u) | some x ↦ (err x, t) ]) (laws.commits t u)

  -- A transaction commits, or its writes are dropped.
  pub transaction-eq-ok :
      {A : Type 0} (f : Exec T A) (t : T) {a : A} {u : T}
      → f t ≡ (ok a, u)
      → transaction e f t ≡ (ok a, u)
  transaction-eq-ok f t {a} {u} h = ap (λ p. commit_all e p.0 t p.1) h ∙ transaction-ok a t u

  pub transaction-eq-err :
      {A : Type 0} (f : Exec T A) (t : T) {x : Error} {u : T}
      → f t ≡ (err x, u)
      → transaction e f t ≡ (err x, t)
  transaction-eq-err f t h = ap (λ p. commit_all e p.0 t p.1) h

-- A key without an entry.
module _ {B T : Type 0} (e : Engine B T) (key : String) (t : T)
    (missing : e.read key t ≡ err key_not_found) where
  pub find_missing : {A : Type 0} (c : Coder B A) → find_item e c key t ≡ ok none
  unfolding find_item get_item
  find_missing c = ap (value_of e c) missing

  pub has_missing : has_key e key t ≡ false
  unfolding has_key
  has_missing = ap is_ok missing
