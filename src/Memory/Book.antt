-- ===== src/Memory/Book.antt =====
-- The in-memory store keeps a book.
use vipnode.Base.{
  String, ◌≡◌, refl, true, false, inl, inr, sym, Option-cases, Bool-cases, [], none, some, arith,
  ap, ◌∙◌, ◌==◌,
}
use vipnode.Base.Exec.{ok, err, unregistered_node, malformed_node}
use vipnode.Int.{ℤ, pos}
use vipnode.Dict.{Dict, remove, get, set, index, get-set, get-remove}
use vipnode.Store.{Node, Balance, no_balance}
use vipnode.Store.Book.{
  Book, BookOp, post, call, spendable_credit, credit_read, KeepsBook, Matches, Matches-by,
  post_unregistered, post_malformed, post-register, spendable_unregistered, spendable_registered,
  post_credit, post_join, add_to,
}
use vipnode.Memory.State.{MemNode, MemoryStore}
use vipnode.Memory.Balances.{
  add_credit, get_node_balance, add_node_balance, add_account_balance, add_account_node,
}
use vipnode.Memory.Nodes.{set_node}
use vipnode.Memory.Driver.{memory_driver, known}

pub record Shows (b : Book) (s : MemoryStore) : Type 0 where
  pub registered : (id : String) → known id s ≡ b.registered id
  pub owner : (id : String) → get id s.accounts ≡ b.owner id
  pub credit : (a : String) → (index a no_balance s.balances).credit ≡ b.credit a
  pub trial : (id : String) → (index id no_balance s.trials).credit ≡ b.trial id

absent :
    (id : String) (b : Book) (s : MemoryStore)
    → Shows b s
    → get id s.nodes ≡ none
    → b.registered id ≡ false
absent id b s h e = sym (h.registered id) ∙ ap (λ o. elim o [ none ↦ false | some _ ↦ true ]) e

present :
    (id : String) (b : Book) (s : MemoryStore) (n : MemNode)
    → Shows b s
    → get id s.nodes ≡ some n
    → b.registered id ≡ true
present id b s n h e = sym (h.registered id) ∙ ap (λ o. elim o [ none ↦ false | some _ ↦ true ]) e

add_unregistered :
    (id : String) (c : ℤ) (s : MemoryStore)
    → get id s.nodes ≡ none
    → add_node_balance id c s ≡ (err unregistered_node, s)
unfolding add_node_balance
add_unregistered id c s e = ground arith

add_trial :
    (id : String) (c : ℤ) (s : MemoryStore) (n : MemNode)
    → get id s.nodes ≡ some n
    → get id s.accounts ≡ none
    → add_node_balance id c s
      ≡ (ok tt, record s { trials = set id (add_credit (index id no_balance s.trials) c) s.trials })
unfolding add_node_balance
add_trial id c s n e f = ground arith

add_owned :
    (id : String) (c : ℤ) (s : MemoryStore) (n : MemNode) (a : String)
    → get id s.nodes ≡ some n
    → get id s.accounts ≡ some a
    → add_node_balance id c s ≡ (
      ok tt,
      record s { balances = set a (add_credit (index a no_balance s.balances) c) s.balances },
    )
unfolding add_node_balance
add_owned id c s n a e f = ground arith

-- A balance that gets credit.
credit-set :
    (k j : String) (c : ℤ) (m : Dict Balance) (f : String → ℤ)
    → ((i : String) → (index i no_balance m).credit ≡ f i)
    → (index j no_balance (set k (add_credit (index k no_balance m) c) m)).credit ≡ add_to f k c j
credit-set k j c m f h =
    ground (arith, get-set k j (add_credit (index k no_balance m) c) m, h j, h k)

credit_node-Matches :
    (id : String) (c : ℤ) (b : Book) (s : MemoryStore)
    → Shows b s
    → Matches Shows (post (BookOp.credit_node id c) b) (add_node_balance id c s)
credit_node-Matches id c b s h = elim (Option-cases (get id s.nodes)) [
  | inl none_e ↦
      Matches-by Shows (post_unregistered id c b (absent id b s h none_e)).0
        (add_unregistered id c s none_e) (refl, h)
  | inr (n, e) ↦ elim (Option-cases (get id s.accounts)) [
    | inl f ↦
        Matches-by Shows (post_credit id c b none (present id b s n h e) (sym (h.owner id) ∙ f))
          (add_trial id c s n e f)
          (
            refl,
            record {
              registered = h.registered;
              owner = h.owner;
              credit = h.credit;
              trial = λ j. credit-set id j c s.trials b.trial h.trial;
            },
          )
    | inr (a, f) ↦
        Matches-by Shows (post_credit id c b (some a) (present id b s n h e) (sym (h.owner id) ∙ f))
          (add_owned id c s n a e f)
          (
            refl,
            record {
              registered = h.registered;
              owner = h.owner;
              credit = λ j. credit-set a j c s.balances b.credit h.credit;
              trial = h.trial;
            },
          )
  ]
]

set_malformed :
    (n : Node) (s : MemoryStore) → (n.id == "") ≡ true → set_node n s ≡ (err malformed_node, s)
unfolding set_node
set_malformed n s e = rw e refl

set_registered :
    (n : Node) (s : MemoryStore)
    → (n.id == "") ≡ false
    → set_node n s
      ≡ (ok tt, record s { nodes = set n.id (record { node = n; peers = [] }) s.nodes })
unfolding set_node
set_registered n s e = rw e refl

register-Matches :
    (n : Node) (b : Book) (s : MemoryStore)
    → Shows b s
    → Matches Shows (post (BookOp.register n) b) (set_node n s)
register-Matches n b s h = elim (Bool-cases (n.id == "")) [
  | inl e ↦ Matches-by Shows (post_malformed n b e) (set_malformed n s e) (refl, h)
  | inr e ↦ Matches-by Shows (post-register n b e) (set_registered n s e) (
    refl,
    record {
      registered = λ j.
          ground (arith, get-set n.id j (record { node = n; peers = [] }) s.nodes, h.registered j);
      owner = h.owner;
      credit = h.credit;
      trial = h.trial;
    },
  )
]

join_unregistered :
    (a id : String) (s : MemoryStore)
    → get id s.nodes ≡ none
    → add_account_node a id s ≡ (err unregistered_node, s)
unfolding add_account_node
join_unregistered a id s e = ground arith

join_registered :
    (a id : String) (s : MemoryStore) (n : MemNode)
    → get id s.nodes ≡ some n
    → let old = index a no_balance s.balances in
      let trial = index id no_balance s.trials in
      add_account_node a id s ≡ (
        ok tt,
        record s {
          accounts = set id a s.accounts;
          trials = remove id s.trials;
          balances = set a (record (add_credit old trial.credit) { account = a }) s.balances;
        },
      )
unfolding add_account_node
join_registered a id s n e = ground arith

join-Matches :
    (a id : String) (b : Book) (s : MemoryStore)
    → Shows b s
    → Matches Shows (post (BookOp.join_account a id) b) (add_account_node a id s)
join-Matches a id b s h = elim (Option-cases (get id s.nodes)) [
  | inl e ↦
      Matches-by Shows ((post_unregistered id (pos 0) b (absent id b s h e)).1 a)
        (join_unregistered a id s e) (refl, h)
  | inr (n, e) ↦
      Matches-by Shows (post_join a id b (present id b s n h e)) (join_registered a id s n e) (
        refl,
        record {
          registered = h.registered;
          owner = λ j. ground (arith, get-set id j a s.accounts, h.owner j);
          credit = λ j. ground (
            arith,
            get-set a j
                (record (add_credit (index a no_balance s.balances)
                  (index id no_balance s.trials).credit) { account = a })
                s.balances,
            h.credit j,
            h.credit a,
            h.trial id,
          );
          trial = λ j. ground (arith, get-remove id j s.trials, h.trial j);
        },
      )
]

memory_step :
    (op : BookOp) (b : Book) (s : MemoryStore)
    → Shows b s
    → Matches Shows (post op b) (call memory_driver op s)
unfolding post add_account_balance
memory_step (BookOp.register n) b s h = register-Matches n b s h
memory_step (BookOp.credit_node id c) b s h = credit_node-Matches id c b s h
memory_step (BookOp.credit_account a c) b s h = (
  refl,
  record {
    registered = h.registered;
    owner = h.owner;
    credit = λ j. credit-set a j c s.balances b.credit h.credit;
    trial = h.trial;
  },
)
memory_step (BookOp.join_account a id) b s h = join-Matches a id b s h

memory_read :
    (id : String) (b : Book) (s : MemoryStore)
    → Shows b s
    → (credit_read (get_node_balance id s).0 ≡ spendable_credit id b)
      × ((get_node_balance id s).1 ≡ s)
unfolding get_node_balance
memory_read id b s h = elim (Option-cases (get id s.nodes)) [
  | inl e ↦ (ground (arith, e, spendable_unregistered id b (absent id b s h e)), ground (arith, e))
  | inr (n, e) ↦ elim (Option-cases (get id s.accounts)) [
    | inl f ↦ (
      ground (
        arith,
        e,
        f,
        spendable_registered id b none (present id b s n h e) (sym (h.owner id) ∙ f),
        h.trial id,
      ),
      ground (arith, e),
    )
    | inr (a, f) ↦ (
      ground (
        arith,
        e,
        f,
        spendable_registered id b (some a) (present id b s n h e) (sym (h.owner id) ∙ f),
        h.credit a,
      ),
      ground (arith, e),
    )
  ]
]

-- The in-memory store keeps a book.
pub memory_book : KeepsBook memory_driver Shows
memory_book = record { step = memory_step; read_credit = memory_read }
