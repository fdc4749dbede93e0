-- ===== src/Badger/Book/Join.antt =====
-- Joining an account in the badger store, as the book has it.
use vipnode.Base.{String, ◌≡◌, refl, true, false, inl, inr, Bool-cases, Option, some, arith, ◌∙◌}
use vipnode.Base.Exec.{ok, err, unregistered_node}
use vipnode.Int.{pos, ◌+ℤ◌}
use vipnode.Store.{Balance}
use vipnode.Store.Book.{
  Book, BookOp, post, Matches, Matches-by, post_unregistered, post_join, put, add_to,
}
use vipnode.Badger.{Engine, EngineLaws, find_item, has_key, set_item}
use vipnode.Badger.Keys.{Kind, print_key}
use vipnode.Badger.Items.{
  set_item_ok, find-set_same, find-set_apart, has_key-set_apart, find-delete_same,
  find-delete_apart, has_key-delete_apart, transaction-eq-ok, transaction-eq-err,
}
use vipnode.Badger.Balances.{or_empty, add_credit, join, add_account_node}
use vipnode.Badger.Book.{
  Shows, paired, apart_from, Holds-set, Holds-set_apart, Holds-delete, Holds-delete_apart,
}

module _ {B T : Type 0} {e : Engine B T} (laws : EngineLaws e) where
  abbrev joined : String → String → Balance → T → T
  joined a id bal t =
      let owned = (set_item e e.strings (print_key Kind.account id) a t).1 in
      (e.delete (print_key Kind.trial id)
        (set_item e e.balances (print_key Kind.balance a) bal owned).1).1

  join-eq :
      (a id : String) (t : T) (o tr : Option Balance)
      → has_key e (print_key Kind.node id) t ≡ true
      → find_item e e.balances (print_key Kind.trial id) t ≡ ok tr
      → find_item e e.balances (print_key Kind.balance a) t ≡ ok o
      → add_account_node e a id t ≡ (
        ok tt,
        joined a id (record (add_credit (or_empty o) (or_empty tr).credit) { account = a }) t,
      )
  unfolding add_account_node join
  join-eq a id t o tr here trial found =
      let bal = record (add_credit (or_empty o) (or_empty tr).credit) { account = a } in
      let named = set_item_ok laws laws.strings (print_key Kind.account id) a t in
      let owned = (set_item e e.strings (print_key Kind.account id) a t).1 in
      let paid = set_item_ok laws laws.balances (print_key Kind.balance a) bal owned in
      let rest = (set_item e e.balances (print_key Kind.balance a) bal owned).1 in
      transaction-eq-ok laws (join e a id) t (
        rw (here, trial, found, named, paid)
          (paired (e.delete (print_key Kind.trial id) rest)
            (laws.delete_ok (print_key Kind.trial id) rest)))

  join_unregistered :
      (a id : String) (t : T)
      → has_key e (print_key Kind.node id) t ≡ false
      → add_account_node e a id t ≡ (err unregistered_node, t)
  unfolding add_account_node join
  join_unregistered a id t here = transaction-eq-err laws (join e a id) t {u = t} (rw here refl)

  joined-Shows :
      (a id : String) (o tr : Option Balance) (b : Book) (t : T)
      → Shows e b t
      → b.registered id ≡ true
      → (or_empty o).credit ≡ b.credit a
      → (or_empty tr).credit ≡ b.trial id
      → Shows e
          (record b {
            owner = put b.owner id (some a);
            credit = add_to b.credit a (b.trial id);
            trial = put b.trial id (pos 0);
          })
          (joined a id (record (add_credit (or_empty o) (or_empty tr).credit) { account = a }) t)
  joined-Shows a id o tr b t h r credit trial =
      let bal = record (add_credit (or_empty o) (or_empty tr).credit) { account = a } in
      let owned = (set_item e e.strings (print_key Kind.account id) a t).1 in
      let paid = (set_item e e.balances (print_key Kind.balance a) bal owned).1 in
      record {
        registered = λ j.
            has_key-delete_apart laws Kind.trial Kind.node id j paid refl
            ∙ (has_key-set_apart laws laws.balances Kind.balance Kind.node a j bal owned refl
                ∙ (has_key-set_apart laws laws.strings Kind.account Kind.node id j a t refl
                    ∙ h.registered j));
        owner = λ j.
            find-delete_apart laws e.strings Kind.trial Kind.account id j paid refl
            ∙ (find-set_apart laws laws.balances e.strings Kind.balance Kind.account a j bal owned
                  refl
                ∙ (find-set_same laws laws.strings Kind.account id j a t
                    ∙ ground (arith, h.owner j)));
        credit =
            Holds-delete_apart laws Kind.trial Kind.balance id (add_to b.credit a (b.trial id)) paid
              refl
              (Holds-set laws Kind.balance a bal b.credit (b.credit a +ℤ b.trial id) owned
                (Holds-set_apart laws laws.strings Kind.account Kind.balance id a b.credit t refl
                  h.credit)
                (rw (credit, trial) refl));
        trial = Holds-delete laws Kind.trial id b.trial paid (
            Holds-set_apart laws laws.balances Kind.balance Kind.trial a bal b.trial owned refl (
              Holds-set_apart laws laws.strings Kind.account Kind.trial id a b.trial t refl
                h.trial));
        no_owner = λ j u. rw (apart_from b.registered id j r u) (h.no_owner j u);
        no_trial = λ j u.
            find-delete_same laws e.balances Kind.trial id j paid
            ∙ rw (apart_from b.registered id j r u) (
                find-set_apart laws laws.balances e.balances Kind.balance Kind.trial a j bal owned
                  refl
                ∙ (find-set_apart laws laws.strings e.balances Kind.account Kind.trial id j a t refl
                    ∙ h.no_trial j u));
      }

  pub join-Matches :
      (a id : String) (b : Book) (t : T)
      → Shows e b t
      → Matches (Shows e) (post (BookOp.join_account a id) b) (add_account_node e a id t)
  join-Matches a id b t h = elim (Bool-cases (b.registered id)) [
    | inr u ↦
        Matches-by (Shows e) ((post_unregistered id (pos 0) b u).1 a)
          (join_unregistered a id t (h.registered id ∙ u)) (refl, h)
    | inl r ↦
        let (o, found, credit) = h.credit a in
        let (tr, merged, trial) = h.trial id in
        Matches-by (Shows e) (post_join a id b r)
          (join-eq a id t o tr (h.registered id ∙ r) merged found)
          (refl, joined-Shows a id o tr b t h r credit trial)
  ]
