-- ===== src/Badger/Book/Keeps.antt =====
-- The badger store keeps a book.
use vipnode.Base.{
  String, ◌≡◌, refl, true, false, inl, inr, sym, Option-cases, Bool-cases, Option, none, some, ap,
  ◌∙◌,
}
use vipnode.Base.Exec.{ok, err, unregistered_node}
use vipnode.Store.{Balance}
use vipnode.Store.Book.{
  Book, BookOp, post, call, spendable_credit, credit_read, KeepsBook, Matches,
  spendable_unregistered, spendable_registered,
}
use vipnode.Badger.{Engine, EngineLaws, find_item, has_key}
use vipnode.Badger.Keys.{Kind, print_key}
use vipnode.Badger.Balances.{or_empty, spend_key, balance_at, get_node_balance}
use vipnode.Badger.Driver.{badger_driver}
use vipnode.Badger.Book.{Shows}
use vipnode.Badger.Book.Credit.{credit_node-Matches, credit_account-Matches, register-Matches}
use vipnode.Badger.Book.Join.{join-Matches}

module _ {B T : Type 0} {e : Engine B T} (laws : EngineLaws e) where
  badger_step :
      (op : BookOp) (b : Book) (t : T)
      → Shows e b t
      → Matches (Shows e) (post op b) (call (badger_driver e) op t)
  badger_step (BookOp.register n) b t h = register-Matches laws n b t h
  badger_step (BookOp.credit_node id c) b t h = credit_node-Matches laws id c b t h
  badger_step (BookOp.credit_account a c) b t h = credit_account-Matches laws a c b t h
  badger_step (BookOp.join_account a id) b t h = join-Matches laws a id b t h

  read_unregistered :
      (id : String) (t : T)
      → find_item e e.strings (print_key Kind.account id) t ≡ ok none
      → has_key e (print_key Kind.node id) t ≡ false
      → find_item e e.balances (print_key Kind.trial id) t ≡ ok none
      → (get_node_balance e id t).0 ≡ err unregistered_node
  unfolding get_node_balance balance_at
  read_unregistered id t owner here found = rw (owner, found, here) refl

  read_registered :
      (id : String) (t : T) (a : Option String) (o : Option Balance)
      → find_item e e.strings (print_key Kind.account id) t ≡ ok a
      → has_key e (print_key Kind.node id) t ≡ true
      → find_item e e.balances (spend_key e id a) t ≡ ok o
      → (get_node_balance e id t).0 ≡ ok (or_empty o)
  unfolding get_node_balance balance_at
  read_registered id t none none owner here found = rw (owner, found, here) refl
  read_registered id t none (some b) owner here found = rw (owner, found) refl
  read_registered id t (some a) none owner here found = rw (owner, found, here) refl
  read_registered id t (some a) (some b) owner here found = rw (owner, found) refl

  badger_read :
      (id : String) (b : Book) (t : T)
      → Shows e b t
      → (credit_read (get_node_balance e id t).0 ≡ spendable_credit id b)
        × ((get_node_balance e id t).1 ≡ t)
  unfolding get_node_balance
  badger_read id b t h = (
    elim (Bool-cases (b.registered id)) [
      | inr u ↦
          ap credit_read (
            read_unregistered id t (h.owner id ∙ ap ok (h.no_owner id u)) (h.registered id ∙ u)
              (h.no_trial id u))
          ∙ sym (spendable_unregistered id b u)
      | inl r ↦ elim (Option-cases (b.owner id)) [
        | inl f ↦
            let (o, found, credit) = h.trial id in
            ap credit_read
              (read_registered id t none o (h.owner id ∙ ap ok f) (h.registered id ∙ r) found)
            ∙ (ap ok credit ∙ sym (spendable_registered id b none r f))
        | inr (a, f) ↦
            let (o, found, credit) = h.credit a in
            ap credit_read
              (read_registered id t (some a) o (h.owner id ∙ ap ok f) (h.registered id ∙ r) found)
            ∙ (ap ok credit ∙ sym (spendable_registered id b (some a) r f))
      ]
    ],
    refl,
  )

  -- The badger store keeps a book.
  pub badger_book : KeepsBook (badger_driver e) (Shows e)
  badger_book = record { step = badger_step; read_credit = badger_read }
