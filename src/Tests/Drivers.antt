-- ===== src/Tests/Drivers.antt =====
-- The drivers of pool/store at the data of the fixtures, and on a badger database in memory.
use vipnode.Base.{◌*◌, ◌≡◌, refl, ◌||◌, ◌&&◌, none, some, List, [], ◌∷◌, if◌then◌else◌, arith}
use vipnode.Base.Exec.{
  Result, ok, err, invalid_nonce, unregistered_node, migration_failed, external,
}
use vipnode.Int.{ℤ, pos, negsuc, ◌+ℤ◌, ◌-ℤ◌, ◌≤ℤ◌, leb_ℤ, int_laws}
use vipnode.Clock.{Time, before, second}
use vipnode.Dict.{get}
use vipnode.Store.{expire_nonce}
use vipnode.Store.Book.{BookOp, run_posts, empty_book, spendable_credit, post}
use vipnode.Memory.State.{new}
use vipnode.Memory.Driver.{memory_driver}
use vipnode.Badger.{get_item, find_item, set_expiring_item}
use vipnode.Badger.Keys.{print_key}
use vipnode.Badger.Nonces.{check_and_save_nonce, use_nonce, save_nonce}
use vipnode.Badger.Replay.{next_request, is_old}
use vipnode.Badger.Replay.Sequence.{Attempt, attempts, never_again}
use vipnode.Badger.Migration.{migrate, migrate_from, latest, get_version}
use vipnode.Badger.Upgrade.Outcome.{migrate_returns, migrate-Outcome, Outcome}
use vipnode.Badger.Driver.{badger_driver}
use vipnode.Drivers.{memory-Promises, badger-Promises, drivers-Agree, Promises, Agree, IsEmpty}
use vipnode.Tests.Fixtures.{now, client}
use vipnode.Tests.Databases.{engine, engine_laws, Database, Item, blank}

-- A node is credited before and after it joins an account; one that is not registered is refused.
abbrev script : List BookOp
script =
    BookOp.register client
    ∷ BookOp.credit_node "client" (pos 5)
    ∷ BookOp.join_account "wallet" "client"
    ∷ BookOp.credit_node "client" (negsuc 1)
    ∷ BookOp.credit_node "near" (pos 7)
    ∷ []

script_results :
    (run_posts script empty_book).0 ≡ ok tt ∷ ok tt ∷ ok tt ∷ ok tt ∷ err unregistered_node ∷ []
unfolding run_posts post ◌+ℤ◌
script_results = refl

script_credit : spendable_credit "client" (run_posts script empty_book).1 ≡ ok (pos 3)
unfolding run_posts post spendable_credit ◌+ℤ◌
script_credit = refl

memory-Promises_example : Promises memory_driver script (new 100)
memory-Promises_example = memory-Promises 100 script

blank-IsEmpty : IsEmpty engine blank
unfolding get
blank-IsEmpty key = refl

badger-Promises_example : Promises (badger_driver engine) script blank
badger-Promises_example = badger-Promises engine_laws blank blank-IsEmpty script

drivers-Agree_example : Agree (badger_driver engine) memory_driver script blank (new 100)
drivers-Agree_example = drivers-Agree engine_laws blank blank-IsEmpty 100 script

abbrev accepted : ℤ → Database
accepted nonce = (check_and_save_nonce engine now "client" nonce blank).1

nonce_accepted : (check_and_save_nonce engine now "client" now blank).0 ≡ ok tt
unfolding check_and_save_nonce use_nonce save_nonce set_expiring_item find_item get_item get ◌-ℤ◌
nonce_accepted = refl

-- Two hours ahead.
abbrev ahead : ℤ
ahead = now +ℤ pos (7200 * second)

ahead_accepted : (check_and_save_nonce engine now "client" ahead blank).0 ≡ ok tt
unfolding check_and_save_nonce use_nonce save_nonce set_expiring_item find_item get_item get ◌-ℤ◌
    ◌+ℤ◌
ahead_accepted = refl

next_request_example :
    (check_and_save_nonce engine (now +ℤ pos second) "client" now (accepted now)).0 ≡ (
      if is_old (now +ℤ pos second) now
        || (before (now +ℤ pos second) (now +ℤ pos expire_nonce) && leb_ℤ now now)
      then err invalid_nonce
      else ok tt)
unfolding ◌+ℤ◌
next_request_example =
    next_request engine_laws now (now +ℤ pos second) "client" now now blank nonce_accepted
      (omega arith)

-- A nonce that is two hours ahead is accepted again 20 minutes later.
ahead_replayed :
    (check_and_save_nonce engine (now +ℤ pos (1200 * second)) "client" ahead (accepted ahead)).0
    ≡ ok tt
unfolding ◌+ℤ◌ ◌-ℤ◌ before
ahead_replayed =
    next_request engine_laws now (now +ℤ pos (1200 * second)) "client" ahead ahead blank
      ahead_accepted (omega arith)

entry_lives :
    (at : Time) → (at +ℤ pos expire_nonce) ≤ℤ (engine.expires at (pos expire_nonce) +ℤ pos 0)
entry_lives at = grind int_laws

never_again_example :
    let between : List Attempt = (second, "client", now +ℤ pos 5) ∷ (second, "other", now) ∷ [] in
    let run = attempts engine between now (accepted now) in
    (check_and_save_nonce engine (run.0 +ℤ pos (1200 * second)) "client" now run.1).0
    ≡ err invalid_nonce
unfolding ◌+ℤ◌
never_again_example =
    never_again engine_laws 0 entry_lives now "client" now now
      ((second, "client", now +ℤ pos 5) ∷ (second, "other", now) ∷ []) (1200 * second) blank
      nonce_accepted (omega arith) (omega arith)

-- A database that was written by version 1 of the program, with a nonce.
abbrev old_database : Database
old_database = record {
  entries =
      ("vip:version", (Item.number (pos 1), none))
      ∷ ("vip:nonce:client", (Item.number now, none))
      ∷ [];
  clock = now;
}

migrate_returns_example :
    (r : Result (Unit {0}) × Database) × (migrate engine 2 (latest engine "db") old_database
      ≡ some r)
unfolding ◌+ℤ◌
migrate_returns_example = migrate_returns engine 2 (latest engine "db") old_database (omega arith)

abbrev newer_database : Database
newer_database = record { entries = ("vip:version", (Item.number (pos 3), none)) ∷ []; clock = now }

abbrev refused : Result (Unit {0}) × Database
refused = (
  err (
      migration_failed (pos 3) (pos 2) "db"
        (external "database is newer than the supported version")),
  newer_database,
)

newer_refused : migrate engine 2 (latest engine "db") newer_database ≡ some refused
unfolding migrate migrate_from get_version find_item get_item get print_key
newer_refused = refl

migrate-Outcome_example : Outcome engine (latest engine "db") newer_database refused
migrate-Outcome_example =
    migrate-Outcome engine 2 (latest engine "db") newer_database refused newer_refused
