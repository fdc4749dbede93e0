-- ===== src/Badger/Migration.antt =====
-- pool/store/badger/migration.go and versions.go: a database is brought to the version of the program
-- when it is opened.
use vipnode.Base.{
  ℕ, zero, suc, String, Bool, false, not, Option, none, some, List, [], ◌∷◌, if◌then◌else◌,
}
use vipnode.Base.Exec.{
  Exec, Result, ok, err, Error, external, panic, migration_failed, pure, raise, raise_if, modify,
  ◌>>=◌, ◌>>◌,
}
use vipnode.Int.{ℤ, pos, ◌-ℤ◌, leb_ℤ, ltb_ℤ, pos_part}
use vipnode.Badger.{Engine, find_item, set_item, reading, commit_all}
use vipnode.Badger.Keys.{Kind, prefix, print_key}

pub record Migration (T : Type 0) : Type 0 where
  pub start_version : ℤ
  pub latest_version : ℤ
  pub steps : List (Exec T (Unit {0}))
  pub database_id : String

abbrev pub eq_ℤ : ℤ → ℤ → Bool
eq_ℤ a b = if leb_ℤ a b then leb_ℤ b a else false

-- The entry of a slice; an index past its end is none.
unfoldable pub nth : {A : Type 0} → List A → ℕ → Option A
nth [] n = none
nth (a ∷ l) zero = some a
nth (a ∷ l) (suc n) = nth l n

-- `m.error`; a panic is no error.
abbrev pub blamed : {T : Type 0} → Migration T → ℤ → Error → Error
blamed m v (panic why) = panic why
blamed m v x = migration_failed v m.latest_version m.database_id x

abbrev pub blame_result : {T A : Type 0} → Migration T → ℤ → Result A → Result A
blame_result m v (ok a) = ok a
blame_result m v (err x) = err (blamed m v x)

abbrev pub blame : {T A : Type 0} → Migration T → ℤ → Exec T A → Exec T A
blame m v f t = let (r, t') = f t in (blame_result m v r, t')

module _ {B T : Type 0} (e : Engine B T) where
  abbrev pub version_key : String
  version_key = print_key Kind.version ""

  abbrev pub or_zero : Option ℤ → ℤ
  or_zero none = pos 0
  or_zero (some v) = v

  -- A database without the entry has version 0.
  unfoldable pub get_version : Exec T ℤ
  get_version = do
    found ← reading e (find_item e e.versions (print_key Kind.version ""))
    pure (or_zero found)

  unfoldable pub set_version : ℤ → Exec T (Unit {0})
  set_version v = set_item e e.versions (print_key Kind.version "") v

  unfoldable pub check_version : ℤ → Exec T (Unit {0})
  check_version wanted = do
    version ← get_version
    raise_if (not (eq_ℤ version wanted)) (external "wrong version for migration")

  -- The loop of the second step. The result of `txn.Delete` is not looked at.
  unfoldable pub delete_all : List String → T → T
  delete_all [] t = t
  delete_all (key ∷ keys) t = delete_all keys (e.delete key t).1

  -- The keys of that loop. `txn.Delete` keeps the slice that the iterator owns, so what is deleted is
  -- what these slices hold in the end.
  abbrev pub nonce_keys : List (String × B) → List String
  nonce_keys [] = []
  nonce_keys ((id, v) ∷ rest) = print_key Kind.nonce id ∷ nonce_keys rest

  unfoldable pub to_1 : Exec T (Unit {0})
  to_1 = do check_version (pos 0); set_version (pos 1)

  -- Nonces got a time to live, so the old ones are dropped.
  unfoldable pub to_2 : Exec T (Unit {0})
  unfolding delete_all
  to_2 = do
    check_version (pos 1)
    modify (λ t. delete_all (e.held (nonce_keys (e.scan (prefix Kind.nonce) t))) t)
    set_version (pos 2)

  abbrev pub migrations : List (Exec T (Unit {0}))
  migrations = to_1 ∷ to_2 ∷ []

  abbrev pub run_step : Migration T → ℤ → Option (Exec T (Unit {0})) → Exec T (Unit {0})
  run_step m v none = raise (panic "index out of range")
  run_step m v (some step) = blame m v step

  -- One round of the loop of `Migrate`: the version after it.
  unfoldable pub advance : Migration T → ℤ → Exec T ℤ
  unfolding nth
  advance m v = do
    run_step m v (nth m.steps (pos_part (v -ℤ m.start_version)))
    next ← blame m v get_version
    raise_if (leb_ℤ next v) (blamed m v (external "migration failed to increment version"))
    pure next

  -- The loop. Without fuel it has no result.
  unfoldable pub run_steps : ℕ → Migration T → ℤ → T → Option (Result (Unit {0}) × T)
  unfolding advance
  run_steps zero m v t = if ltb_ℤ v m.latest_version then none else some (ok tt, t)
  run_steps (suc fuel) m v t =
      if ltb_ℤ v m.latest_version
      then (let (r, t') = advance m v t in
          elim r [ err x ↦ some (err x, t') | ok next ↦ run_steps fuel m next t' ])
      else some (ok tt, t)

  unfoldable pub migrate_from : ℕ → Migration T → ℤ → T → Option (Result (Unit {0}) × T)
  migrate_from fuel m old t =
      if eq_ℤ old m.latest_version
      then some (ok tt, t)
      else if ltb_ℤ m.latest_version old
      then some (err (blamed m old (external "database is newer than the supported version")), t)
      else if ltb_ℤ old m.start_version
      then some
          (err (blamed m old (external "database version too old, migration is not supported")), t)
      else run_steps fuel m old t

  abbrev pub commit_some : T → Option (Result (Unit {0}) × T) → Option (Result (Unit {0}) × T)
  commit_some t none = none
  commit_some t (some (r, u)) = some (commit_all e r t u)

  -- `Migrate`, in one transaction.
  unfoldable pub migrate : ℕ → Migration T → T → Option (Result (Unit {0}) × T)
  unfolding get_version migrate_from
  migrate fuel m t =
      let (r, t') = blame m (pos 0) get_version t in
      commit_some t (elim r [ err x ↦ some (err x, t') | ok old ↦ migrate_from fuel m old t' ])

  -- `MigrateLatest`
  abbrev pub latest : String → Migration T
  latest id = record {
    start_version = pos 0;
    latest_version = pos 2;
    steps = migrations;
    database_id = id;
  }
