-- ===== src/Drivers.antt =====
-- The two drivers of pool/store, side by side: what they promise of balances is the same.
use vipnode.Base.{ℕ, String, ◌≡◌, refl, sym, ◌∙◌, List, none}
use vipnode.Base.Exec.{err, key_not_found}
use vipnode.Store.Driver.{Driver}
use vipnode.Store.Book.{
  Book, BookOp, empty_book, KeepsBook, run_calls, run_posts, spendable_credit, credit_read,
  run_calls-posts,
}
use vipnode.Memory.State.{new}
use vipnode.Memory.Driver.{memory_driver}
use vipnode.Memory.Book.{memory_book, Shows}
use vipnode.Badger.{Engine, EngineLaws}
use vipnode.Badger.Keys.{Kind, print_key}
use vipnode.Badger.Items.{find_missing, has_missing}
use vipnode.Dict.{get}
use vipnode.Badger.Driver.{badger_driver}
use vipnode.Badger.Book.Keeps.{badger_book}

-- What callers see of a driver after a sequence of calls: the results, and the credit that each node
-- reads.
abbrev pub Promises : {S : Type 0} → Driver S → List BookOp → S → Type 0
Promises store ops s =
    ((run_calls store ops s).0 ≡ (run_posts ops empty_book).0)
    × ((id : String)
        → credit_read (store.get_node_balance id (run_calls store ops s).1).0
          ≡ spendable_credit id (run_posts ops empty_book).1)

abbrev pub Agree : {S T : Type 0} → Driver S → Driver T → List BookOp → S → T → Type 0
Agree store other ops s t =
    ((run_calls store ops s).0 ≡ (run_calls other ops t).0)
    × ((id : String)
        → credit_read (store.get_node_balance id (run_calls store ops s).1).0
          ≡ credit_read (other.get_node_balance id (run_calls other ops t).1).0)

promised :
    {S : Type 0} {store : Driver S} {Shown : Book → S → Type 0}
    → KeepsBook store Shown
    → (ops : List BookOp) (s : S) → Shown empty_book s
    → Promises store ops s
promised {store = store} keeps ops s h =
    let (same, final) = run_calls-posts keeps ops empty_book s h in
    (
      same,
      λ id. (keeps.read_credit id (run_posts ops empty_book).1 (run_calls store ops s).1 final).0,
    )

-- A database without entries.
abbrev pub IsEmpty : {B T : Type 0} → Engine B T → T → Type 0
IsEmpty e t = (key : String) → e.read key t ≡ err key_not_found

new-Shows : (room : ℕ) → Shows empty_book (new room)
unfolding get
new-Shows room = record {
  registered = λ id. refl;
  owner = λ id. refl;
  credit = λ a. refl;
  trial = λ id. refl;
}

-- Any calls on a new in-memory store that register nodes, add credit and join accounts have the
-- results that the specification of balances promises, and each node reads the credit that it
-- promises afterwards.
pub memory-Promises : (room : ℕ) (ops : List BookOp) → Promises memory_driver ops (new room)
memory-Promises room ops = promised memory_book ops (new room) (new-Shows room)

module _ {B T : Type 0} {e : Engine B T} (laws : EngineLaws e) (t : T) (empty : IsEmpty e t) where
  empty-Shows : vipnode.Badger.Book.Shows e empty_book t
  empty-Shows =
      let blank = λ (k : Kind) (id : String). empty (print_key k id) in
      record {
        registered = λ id. has_missing e (print_key Kind.node id) t (blank Kind.node id);
        owner =
            λ id. find_missing e (print_key Kind.account id) t (blank Kind.account id) e.strings;
        credit = λ a. (
          none,
          find_missing e (print_key Kind.balance a) t (blank Kind.balance a) e.balances,
          refl,
        );
        trial = λ id. (
          none,
          find_missing e (print_key Kind.trial id) t (blank Kind.trial id) e.balances,
          refl,
        );
        no_owner = λ id u. refl;
        no_trial =
            λ id u. find_missing e (print_key Kind.trial id) t (blank Kind.trial id) e.balances;
      }

  -- Any such calls on the badger store, on a database without entries, have the results that the
  -- specification of balances promises, and each node reads the credit that it promises
  -- afterwards. badger and gob behave as documented.
  pub badger-Promises : (ops : List BookOp) → Promises (badger_driver e) ops t
  badger-Promises ops = promised (badger_book laws) ops t empty-Shows

  -- The badger store, on a database without entries, and a new in-memory store cannot be told
  -- apart by any sequence of calls that register nodes, add credit to nodes and accounts, and
  -- join nodes to accounts: each call has the same result, and afterwards each node reads the
  -- same credit, or is refused with the same error. badger and gob behave as documented.
  pub drivers-Agree :
      (room : ℕ) (ops : List BookOp) → Agree (badger_driver e) memory_driver ops t (new room)
  drivers-Agree room ops =
      let (same, reads) = badger-Promises ops in
      let (same', reads') = memory-Promises room ops in
      (same ∙ sym same', λ id. reads id ∙ sym (reads' id))
