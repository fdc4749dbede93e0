-- ===== src/Badger/Book.antt =====
-- How a badger database stands for a book, and the writes that keep it so.
pub mod Credit
pub mod Join
pub mod Keeps
use vipnode.Base.{
  String, ◌≡◌, refl, Bool, true, false, inl, inr, sym, Option-cases, Bool-cases, Option, none, some,
  arith, ap, ◌∙◌, eq_iff, ◌==◌, nat_eq,
}
use vipnode.Base.Exec.{ok, err, unregistered_node, malformed_node}
use vipnode.Int.{ℤ, pos, ◌+ℤ◌}
use vipnode.Store.{Node, Balance}
use vipnode.Store.Book.{
  Book, BookOp, post, call, spendable_credit, credit_read, KeepsBook, Matches, Matches-by,
  post_unregistered, post_malformed, post-register, spendable_unregistered, spendable_registered,
  post_credit, post_join, put, add_to, credit_of_node,
}
use vipnode.Badger.{Engine, EngineLaws, Coder, IsCoder, find_item, has_key, set_item}
use vipnode.Badger.Keys.{Kind, code, print_key}
use vipnode.Badger.Items.{
  set_item_ok, find-set_same, find-set_apart, has_key-set_item, has_key-set_apart, find-delete_same,
  find-delete_apart, has_key-delete_apart, transaction-eq-ok, transaction-eq-err, kinds_same,
}
use vipnode.Badger.Balances.{
  or_empty, add_credit, spend_key, balance_at, get_node_balance, add_to_node, add_to_account, join,
  add_node_balance, add_account_balance, add_account_node,
}
use vipnode.Badger.Nodes.{set_node}
use vipnode.Badger.Driver.{badger_driver}

-- The balances of one kind have the credits of a function.
abbrev pub Holds : {B T : Type 0} → Engine B T → Kind → (String → ℤ) → T → Type 0
Holds e k f t =
    (i : String)
    → (o : Option Balance) × (find_item e e.balances (print_key k i) t ≡ ok o)
      × ((or_empty o).credit ≡ f i)

pub record Shows {B T : Type 0} (e : Engine B T) (b : Book) (t : T) : Type 0 where
  pub registered : (id : String) → has_key e (print_key Kind.node id) t ≡ b.registered id
  pub owner : (id : String) → find_item e e.strings (print_key Kind.account id) t ≡ ok (b.owner id)
  pub credit : Holds e Kind.balance b.credit t
  pub trial : Holds e Kind.trial b.trial t
  -- a node without an entry has neither an account nor a trial balance
  pub no_owner : (id : String) → b.registered id ≡ false → b.owner id ≡ none
  pub no_trial :
      (id : String)
      → b.registered id ≡ false
      → find_item e e.balances (print_key Kind.trial id) t ≡ ok none

pub paired : {A C : Type 0} (p : A × C) {a : A} → p.0 ≡ a → p ≡ (a, p.1)
paired p h = ap (λ x. (x, p.1)) h

-- Names that a test tells apart are different.
pub apart_from : (f : String → Bool) (i j : String) → f i ≡ true → f j ≡ false → (i == j) ≡ false
apart_from f i j t u = elim (Bool-cases (i == j)) [
  | inl same ↦ let e = (eq_iff i j).0 same in cc
  | inr other ↦ other
]

pub was_not : (f : String → Bool) (i j : String) → put f i true j ≡ false → f j ≡ false
was_not f i j u = elim (Bool-cases (i == j)) [ inl same ↦ ground arith | inr other ↦ ground arith ]

module _ {B T : Type 0} {e : Engine B T} (laws : EngineLaws e) where
  pub Holds-set :
      (k : Kind) (i : String) (bal : Balance) (f : String → ℤ) (x : ℤ) (t : T)
      → Holds e k f t
      → bal.credit ≡ x
      → Holds e k (put f i x) (set_item e e.balances (print_key k i) bal t).1
  Holds-set k i bal f x t h same j =
      let (o, found, credit) = h j in
      elim (Bool-cases (i == j)) [
        | inl here ↦
            (some bal, find-set_same laws laws.balances k i j bal t ∙ rw here refl, rw here same)
        | inr other ↦
            (o, find-set_same laws laws.balances k i j bal t ∙ rw other found, rw other credit)
      ]

  pub Holds-set_apart :
      {A : Type 0} {c : Coder B A} (good : IsCoder c) (l k : Kind) (i : String) (a : A)
      (f : String → ℤ) (t : T)
      → nat_eq (code l) (code k) ≡ false
      → Holds e k f t
      → Holds e k f (set_item e c (print_key l i) a t).1
  Holds-set_apart good l k i a f t apart h j =
      let (o, found, credit) = h j in
      (o, find-set_apart laws good e.balances l k i j a t apart ∙ found, credit)

  pub Holds-delete :
      (k : Kind) (i : String) (f : String → ℤ) (t : T)
      → Holds e k f t
      → Holds e k (put f i (pos 0)) (e.delete (print_key k i) t).1
  Holds-delete k i f t h j =
      let (o, found, credit) = h j in
      elim (Bool-cases (i == j)) [
        | inl here ↦ (none, find-delete_same laws e.balances k i j t ∙ rw here refl, rw here refl)
        | inr other ↦
            (o, find-delete_same laws e.balances k i j t ∙ rw other found, rw other credit)
      ]

  pub Holds-delete_apart :
      (l k : Kind) (i : String) (f : String → ℤ) (t : T)
      → nat_eq (code l) (code k) ≡ false
      → Holds e k f t
      → Holds e k f (e.delete (print_key l i) t).1
  Holds-delete_apart l k i f t apart h j =
      let (o, found, credit) = h j in
      (o, find-delete_apart laws e.balances l k i j t apart ∙ found, credit)
