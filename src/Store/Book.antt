-- ===== src/Store/Book.antt =====
-- What the interface `Store` promises of balances, without maps, keys or encodings: who is registered,
-- whose account each node spends from, and the credits.
use vipnode.Base.{
  String, ◌≡◌, refl, Bool, true, false, Option, none, some, List, [], ◌∷◌, ◌==◌, if◌then◌else◌,
}
use vipnode.Base.Exec.{Exec, Result, ok, err, malformed_node, unregistered_node}
use vipnode.Int.{ℤ, pos, ◌+ℤ◌}
use vipnode.Store.{Node, Balance}
use vipnode.Store.Driver.{Driver}

pub record Book : Type 0 where
  pub registered : String → Bool
  pub owner : String → Option String
  pub credit : String → ℤ
  pub trial : String → ℤ

abbrev pub empty_book : Book
empty_book = record {
  registered = λ id. false;
  owner = λ id. none;
  credit = λ a. pos 0;
  trial = λ id. pos 0;
}

-- A function, changed at one name.
abbrev pub put {ℓ} : {A : Type ℓ} → (String → A) → String → A → String → A
put f k a j = if k == j then a else f j

pub data BookOp : Type 0 where
  register : Node → BookOp
  credit_node credit_account : String → ℤ → BookOp
  join_account : String → String → BookOp

abbrev pub add_to : (String → ℤ) → String → ℤ → String → ℤ
add_to f k c = put f k (f k +ℤ c)

-- Where credit for a node goes.
abbrev pub credit_of_node : String → ℤ → Option String → Book → Book
credit_of_node id c none b = record b { trial = add_to b.trial id c }
credit_of_node id c (some account) b = record b { credit = add_to b.credit account c }

-- The operations as they are promised.
unfoldable pub post : BookOp → Exec Book (Unit {0})
post (register n) b =
    if n.id == ""
    then (err malformed_node, b)
    else (ok tt, record b { registered = put b.registered n.id true })
post (credit_node id c) b =
    if b.registered id
    then (ok tt, credit_of_node id c (b.owner id) b)
    else (err unregistered_node, b)
post (credit_account account c) b = (ok tt, record b { credit = add_to b.credit account c })
post (join_account account id) b =
    if b.registered id
    then (
      ok tt,
      record b {
        owner = put b.owner id (some account);
        credit = add_to b.credit account (b.trial id);
        trial = put b.trial id (pos 0);
      },
    )
    else (err unregistered_node, b)

abbrev pub spent_from : String → Option String → Book → ℤ
spent_from id none b = b.trial id
spent_from id (some account) b = b.credit account

-- The credit that a node reads.
unfoldable pub spendable_credit : String → Book → Result ℤ
spendable_credit id b =
    if b.registered id then ok (spent_from id (b.owner id) b) else err unregistered_node

abbrev pub credit_read : Result Balance → Result ℤ
credit_read (ok b) = ok b.credit
credit_read (err e) = err e

-- The same operations on a driver.
abbrev pub call : {S : Type 0} → Driver S → BookOp → Exec S (Unit {0})
call store (register n) = store.set_node n
call store (credit_node id c) = store.add_node_balance id c
call store (credit_account account c) = store.add_account_balance account c
call store (join_account account id) = store.add_account_node account id

-- An outcome of a driver stands for an outcome of a book.
abbrev pub Matches :
    {S : Type 0} (Shows : Book → S → Type 0)
    → Result (Unit {0}) × Book
    → Result (Unit {0}) × S
    → Type 0
Matches Shows p r = (r.0 ≡ p.0) × Shows p.1 r.1

pub Matches-by :
    {S : Type 0} (Shows : Book → S → Type 0) {p p' : Result (Unit {0}) × Book}
    {r r' : Result (Unit {0}) × S}
    → p ≡ p'
    → r ≡ r'
    → Matches Shows p' r'
    → Matches Shows p r
Matches-by Shows e f h = rw (e, f) h

-- What the book does at each node.
pub post_unregistered :
    (id : String) (c : ℤ) (b : Book)
    → b.registered id ≡ false
    → (post (credit_node id c) b ≡ (err unregistered_node, b))
      × ((a : String) → post (join_account a id) b ≡ (err unregistered_node, b))
unfolding post
post_unregistered id c b h = (rw h refl, λ a. rw h refl)

pub post_malformed :
    (n : Node) (b : Book) → (n.id == "") ≡ true → post (register n) b ≡ (err malformed_node, b)
unfolding post
post_malformed n b h = rw h refl

pub post-register :
    (n : Node) (b : Book)
    → (n.id == "") ≡ false
    → post (register n) b ≡ (ok tt, record b { registered = put b.registered n.id true })
unfolding post
post-register n b h = rw h refl

pub spendable_unregistered :
    (id : String) (b : Book)
    → b.registered id ≡ false
    → spendable_credit id b ≡ err unregistered_node
unfolding spendable_credit
spendable_unregistered id b h = rw h refl

pub spendable_registered :
    (id : String) (b : Book) (o : Option String)
    → b.registered id ≡ true
    → b.owner id ≡ o
    → spendable_credit id b ≡ ok (spent_from id o b)
unfolding spendable_credit
spendable_registered id b o h e = rw (h, e) refl

pub post_credit :
    (id : String) (c : ℤ) (b : Book) (o : Option String)
    → b.registered id ≡ true
    → b.owner id ≡ o
    → post (credit_node id c) b ≡ (ok tt, credit_of_node id c o b)
unfolding post
post_credit id c b o h e = rw (h, e) refl

pub post_join :
    (a id : String) (b : Book)
    → b.registered id ≡ true
    → post (join_account a id) b ≡ (
      ok tt,
      record b {
        owner = put b.owner id (some a);
        credit = add_to b.credit a (b.trial id);
        trial = put b.trial id (pos 0);
      },
    )
unfolding post
post_join a id b h = rw h refl

-- A driver keeps a book: `Shows b s` says that the state `s` stands for `b`.
pub record KeepsBook {S : Type 0} (store : Driver S) (Shows : Book → S → Type 0) : Type 0 where
  pub step :
      (op : BookOp) (b : Book) (s : S) → Shows b s → Matches Shows (post op b) (call store op s)
  pub read_credit :
      (id : String) (b : Book) (s : S)
      → Shows b s
      → (credit_read (store.get_node_balance id s).0 ≡ spendable_credit id b)
        × ((store.get_node_balance id s).1 ≡ s)

-- The results of a sequence of calls, and the state behind them.
unfoldable pub run_calls : {S : Type 0} → Driver S → List BookOp → S → List (Result (Unit {0})) × S
run_calls store [] s = ([], s)
run_calls store (op ∷ ops) s =
    let (r, s') = call store op s in let (rs, s'') = run_calls store ops s' in (r ∷ rs, s'')

unfoldable pub run_posts : List BookOp → Book → List (Result (Unit {0})) × Book
run_posts [] b = ([], b)
run_posts (op ∷ ops) b =
    let (r, b') = post op b in let (rs, b'') = run_posts ops b' in (r ∷ rs, b'')

module _ {S : Type 0} {store : Driver S} {Shows : Book → S → Type 0}
    (keeps : KeepsBook store Shows) where
  -- Any sequence of calls has the promised results, and leads to a state that stands for the book.
  pub run_calls-posts :
      (ops : List BookOp) (b : Book) (s : S)
      → Shows b s
      → ((run_calls store ops s).0 ≡ (run_posts ops b).0)
        × Shows (run_posts ops b).1 (run_calls store ops s).1
  unfolding run_calls run_posts
  run_calls-posts [] b s h = (refl, h)
  run_calls-posts (op ∷ ops) b s h =
      let (same, shown) = keeps.step op b s h in
      let (rest, final) = run_calls-posts ops (post op b).1 (call store op s).1 shown in (cc, final)
