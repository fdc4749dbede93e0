-- ===== src/Badger/Book/Credit.antt =====
-- Credit and registration in the badger store, as the book has them.
use vipnode.Base.{
  String, ◌≡◌, refl, true, false, inl, inr, Option-cases, Bool-cases, Option, none, some, ap, ◌∙◌,
  ◌==◌,
}
use vipnode.Base.Exec.{ok, err, unregistered_node, malformed_node}
use vipnode.Int.{ℤ, ◌+ℤ◌}
use vipnode.Store.{Node, Balance}
use vipnode.Store.Book.{
  Book, BookOp, post, Matches, Matches-by, post_unregistered, post_malformed, post-register,
  post_credit, put, add_to, credit_of_node,
}
use vipnode.Badger.{Engine, EngineLaws, find_item, has_key, set_item}
use vipnode.Badger.Keys.{Kind, print_key}
use vipnode.Badger.Items.{
  set_item_ok, find-set_same, find-set_apart, has_key-set_item, has_key-set_apart,
  transaction-eq-ok, transaction-eq-err, kinds_same,
}
use vipnode.Badger.Balances.{
  or_empty, add_credit, spend_key, balance_at, add_to_node, add_to_account, add_node_balance,
  add_account_balance,
}
use vipnode.Badger.Nodes.{set_node}
use vipnode.Badger.Book.{Shows, paired, apart_from, was_not, Holds-set, Holds-set_apart}

module _ {B T : Type 0} {e : Engine B T} (laws : EngineLaws e) where
  add_to_node-eq :
      (id : String) (c : ℤ) (t : T) (a : Option String) (o : Option Balance)
      → find_item e e.strings (print_key Kind.account id) t ≡ ok a
      → has_key e (print_key Kind.node id) t ≡ true
      → find_item e e.balances (spend_key e id a) t ≡ ok o
      → add_to_node e id c t
        ≡ set_item e e.balances (spend_key e id a) (add_credit (or_empty o) c) t
  unfolding add_to_node balance_at
  add_to_node-eq id c t a none owner here found = rw (owner, found, here) refl
  add_to_node-eq id c t a (some b) owner here found = rw (owner, found) refl

  add_unregistered :
      (id : String) (c : ℤ) (t : T)
      → find_item e e.strings (print_key Kind.account id) t ≡ ok none
      → has_key e (print_key Kind.node id) t ≡ false
      → find_item e e.balances (print_key Kind.trial id) t ≡ ok none
      → add_node_balance e id c t ≡ (err unregistered_node, t)
  unfolding add_node_balance add_to_node balance_at
  add_unregistered id c t owner here found =
      transaction-eq-err laws (add_to_node e id c) t {u = t} (rw (owner, found, here) refl)

  add_registered :
      (id : String) (c : ℤ) (t : T) (a : Option String) (o : Option Balance)
      → find_item e e.strings (print_key Kind.account id) t ≡ ok a
      → has_key e (print_key Kind.node id) t ≡ true
      → find_item e e.balances (spend_key e id a) t ≡ ok o
      → add_node_balance e id c t
        ≡ (ok tt, (set_item e e.balances (spend_key e id a) (add_credit (or_empty o) c) t).1)
  unfolding add_node_balance
  add_registered id c t a o owner here found = transaction-eq-ok laws (add_to_node e id c) t (
      add_to_node-eq id c t a o owner here found
      ∙ paired (set_item e e.balances (spend_key e id a) (add_credit (or_empty o) c) t)
          (set_item_ok laws laws.balances (spend_key e id a) (add_credit (or_empty o) c) t))

  no_trial-set :
      (id : String) (bal : Balance) (b : Book) (t : T)
      → Shows e b t
      → b.registered id ≡ true
      → (j : String) → b.registered j ≡ false
      → find_item e e.balances
          (print_key Kind.trial j)
          (set_item e e.balances (print_key Kind.trial id) bal t).1
        ≡ ok none
  no_trial-set id bal b t h r j u =
      find-set_same laws laws.balances Kind.trial id j bal t
      ∙ rw (apart_from b.registered id j r u) (h.no_trial j u)

  add_trial-Shows :
      (id : String) (c : ℤ) (o : Option Balance) (b : Book) (t : T)
      → Shows e b t
      → b.registered id ≡ true
      → (or_empty o).credit ≡ b.trial id
      → Shows e
          (credit_of_node id c none b)
          (set_item e e.balances (print_key Kind.trial id) (add_credit (or_empty o) c) t).1
  add_trial-Shows id c o b t h r credit =
      let bal = add_credit (or_empty o) c in
      record {
        registered = λ j.
            has_key-set_apart laws laws.balances Kind.trial Kind.node id j bal t refl
            ∙ h.registered j;
        owner = λ j.
            find-set_apart laws laws.balances e.strings Kind.trial Kind.account id j bal t refl
            ∙ h.owner j;
        credit =
            Holds-set_apart laws laws.balances Kind.trial Kind.balance id bal b.credit t refl
              h.credit;
        trial =
            Holds-set laws Kind.trial id bal b.trial (b.trial id +ℤ c) t h.trial
              (ap (λ x. x +ℤ c) credit);
        no_owner = h.no_owner;
        no_trial = λ j u. no_trial-set id bal b t h r j u;
      }

  add_balance-Shows :
      (a : String) (c : ℤ) (bal : Balance) (b : Book) (t : T)
      → Shows e b t
      → bal.credit ≡ b.credit a +ℤ c
      → Shows e
          (record b { credit = add_to b.credit a c })
          (set_item e e.balances (print_key Kind.balance a) bal t).1
  add_balance-Shows a c bal b t h credit = record {
    registered = λ j.
        has_key-set_apart laws laws.balances Kind.balance Kind.node a j bal t refl ∙ h.registered j;
    owner = λ j.
        find-set_apart laws laws.balances e.strings Kind.balance Kind.account a j bal t refl
        ∙ h.owner j;
    credit = Holds-set laws Kind.balance a bal b.credit (b.credit a +ℤ c) t h.credit credit;
    trial = Holds-set_apart laws laws.balances Kind.balance Kind.trial a bal b.trial t refl h.trial;
    no_owner = h.no_owner;
    no_trial = λ j u.
        find-set_apart laws laws.balances e.balances Kind.balance Kind.trial a j bal t refl
        ∙ h.no_trial j u;
  }

  pub credit_node-Matches :
      (id : String) (c : ℤ) (b : Book) (t : T)
      → Shows e b t
      → Matches (Shows e) (post (BookOp.credit_node id c) b) (add_node_balance e id c t)
  credit_node-Matches id c b t h = elim (Bool-cases (b.registered id)) [
    | inr u ↦
        Matches-by (Shows e) (post_unregistered id c b u).0
          (add_unregistered id c t (h.owner id ∙ ap ok (h.no_owner id u)) (h.registered id ∙ u)
            (h.no_trial id u))
          (refl, h)
    | inl r ↦ elim (Option-cases (b.owner id)) [
      | inl f ↦
          let (o, found, credit) = h.trial id in
          Matches-by (Shows e) (post_credit id c b none r f)
            (add_registered id c t none o (h.owner id ∙ ap ok f) (h.registered id ∙ r) found)
            (refl, add_trial-Shows id c o b t h r credit)
      | inr (a, f) ↦
          let (o, found, credit) = h.credit a in
          Matches-by (Shows e) (post_credit id c b (some a) r f)
            (add_registered id c t (some a) o (h.owner id ∙ ap ok f) (h.registered id ∙ r) found)
            (
              refl,
              add_balance-Shows a c (add_credit (or_empty o) c) b t h (ap (λ x. x +ℤ c) credit),
            )
    ]
  ]

  add_to_account-eq :
      (a : String) (c : ℤ) (t : T) (o : Option Balance)
      → find_item e e.balances (print_key Kind.balance a) t ≡ ok o
      → let bal = record (add_credit (or_empty o) c) { account = a } in
        add_account_balance e a c t
        ≡ (ok tt, (set_item e e.balances (print_key Kind.balance a) bal t).1)
  unfolding add_account_balance add_to_account
  add_to_account-eq a c t o found =
      let bal = record (add_credit (or_empty o) c) { account = a } in
      let key = print_key Kind.balance a in
      transaction-eq-ok laws (add_to_account e a c) t (
        added a c t o found
        ∙ paired (set_item e e.balances key bal t) (set_item_ok laws laws.balances key bal t))
    where
      added :
          (a : String) (c : ℤ) (t : T) (o : Option Balance)
          → find_item e e.balances (print_key Kind.balance a) t ≡ ok o
          → add_to_account e a c t
            ≡ set_item e e.balances
                (print_key Kind.balance a)
                (record (add_credit (or_empty o) c) { account = a })
                t
      added a c t o found = rw found refl

  pub credit_account-Matches :
      (a : String) (c : ℤ) (b : Book) (t : T)
      → Shows e b t
      → Matches (Shows e) (post (BookOp.credit_account a c) b) (add_account_balance e a c t)
  unfolding post
  credit_account-Matches a c b t h =
      let (o, found, credit) = h.credit a in
      Matches-by (Shows e) refl (add_to_account-eq a c t o found) (
        refl,
        add_balance-Shows a c (record (add_credit (or_empty o) c) { account = a }) b t h
            (ap (λ x. x +ℤ c) credit),
      )

  set_malformed :
      (n : Node) (t : T) → (n.id == "") ≡ true → set_node e n t ≡ (err malformed_node, t)
  unfolding set_node
  set_malformed n t m = rw m refl

  set_registered :
      (n : Node) (t : T)
      → (n.id == "") ≡ false
      → set_node e n t ≡ (ok tt, (set_item e e.nodes (print_key Kind.node n.id) n t).1)
  unfolding set_node
  set_registered n t m =
      let key = print_key Kind.node n.id in
      rw m (
        transaction-eq-ok laws (set_item e e.nodes key n) t
          (paired (set_item e e.nodes key n t) (set_item_ok laws laws.nodes key n t)))

  register-Shows :
      (n : Node) (b : Book) (t : T)
      → Shows e b t
      → Shows e
          (record b { registered = put b.registered n.id true })
          (set_item e e.nodes (print_key Kind.node n.id) n t).1
  register-Shows n b t h = record {
    registered = λ j.
        has_key-set_item laws laws.nodes (print_key Kind.node n.id) (print_key Kind.node j) n t
        ∙ rw (kinds_same Kind.node n.id j, h.registered j) refl;
    owner = λ j.
        find-set_apart laws laws.nodes e.strings Kind.node Kind.account n.id j n t refl ∙ h.owner j;
    credit = Holds-set_apart laws laws.nodes Kind.node Kind.balance n.id n b.credit t refl h.credit;
    trial = Holds-set_apart laws laws.nodes Kind.node Kind.trial n.id n b.trial t refl h.trial;
    no_owner = λ j u. h.no_owner j (was_not b.registered n.id j u);
    no_trial = λ j u.
        find-set_apart laws laws.nodes e.balances Kind.node Kind.trial n.id j n t refl
        ∙ h.no_trial j (was_not b.registered n.id j u);
  }

  pub register-Matches :
      (n : Node) (b : Book) (t : T)
      → Shows e b t
      → Matches (Shows e) (post (BookOp.register n) b) (set_node e n t)
  register-Matches n b t h = elim (Bool-cases (n.id == "")) [
    | inl m ↦ Matches-by (Shows e) (post_malformed n b m) (set_malformed n t m) (refl, h)
    | inr m ↦
        Matches-by (Shows e) (post-register n b m) (set_registered n t m)
          (refl, register-Shows n b t h)
  ]
