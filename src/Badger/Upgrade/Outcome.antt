-- ===== src/Badger/Upgrade/Outcome.antt =====
-- `Migrate` of pool/store/badger/migration.go: it returns, and what becomes of the database.
use vipnode.Base.{
  ℕ, ◌≡◌, refl, ap, sym, subst, ◌∙◌, ◌⊎◌, true, inl, inr, Option, none, some, arith, option_keeps,
}
use vipnode.Base.Exec.{Result, ok, err, Error, external, Result-cases}
use vipnode.Int.{ℤ, pos, ◌+ℤ◌, ◌≤ℤ◌, ◌<ℤ◌, int_laws}
use vipnode.Badger.{Engine, commit_all}
use vipnode.Badger.Migration.{
  Migration, eq_ℤ, blamed, get_version, run_steps, migrate_from, migrate, commit_some,
}
use vipnode.Badger.Upgrade.{
  get_version_frame, run_steps_returns, HasVersion, Reached, run_steps-Reached,
}

later_start :
    (start v latest : ℤ) (fuel : ℕ)
    → latest ≤ℤ start +ℤ pos fuel
    → start ≤ℤ v
    → latest ≤ℤ v +ℤ pos fuel
later_start start v latest fuel h k = grind int_laws

module _ {B T : Type 0} (e : Engine B T) where
  -- The four ways in which the version of the database stands to those of the program.
  pub from-latest :
      (fuel : ℕ) (m : Migration T) (v : ℤ) (t : T)
      → eq_ℤ v m.latest_version ≡ true
      → migrate_from e fuel m v t ≡ some (ok tt, t)
  unfolding migrate_from
  from-latest fuel m v t h = rw h refl

  pub from-supported :
      (fuel : ℕ) (m : Migration T) (v : ℤ) (t : T)
      → v <ℤ m.latest_version
      → m.start_version ≤ℤ v
      → migrate_from e fuel m v t ≡ run_steps e fuel m v t
  unfolding migrate_from
  from-supported fuel m v t h k = ground arith

  pub from-newer :
      (fuel : ℕ) (m : Migration T) (v : ℤ) (t : T)
      → m.latest_version <ℤ v
      → migrate_from e fuel m v t
        ≡ some (err (blamed m v (external "database is newer than the supported version")), t)
  unfolding migrate_from
  from-newer fuel m v t newer = ground arith

  from-older :
      (fuel : ℕ) (m : Migration T) (v : ℤ) (t : T)
      → v <ℤ m.latest_version
      → v <ℤ m.start_version
      → migrate_from e fuel m v t
        ≡ some
            (err (blamed m v (external "database version too old, migration is not supported")), t)
  unfolding migrate_from
  from-older fuel m v t below older = ground arith

  -- How two versions stand to each other.
  abbrev Standing : Migration T → ℤ → Type 0
  Standing m v =
      (eq_ℤ v m.latest_version ≡ true)
      ⊎ (m.latest_version <ℤ v)
      ⊎ ((v <ℤ m.latest_version) × (v <ℤ m.start_version))
      ⊎ ((v <ℤ m.latest_version) × (m.start_version ≤ℤ v))

  standing : (m : Migration T) (v : ℤ) → Standing m v
  standing m v = ground arith

  from_returns :
      (fuel : ℕ) (m : Migration T) (v : ℤ) (t : T)
      → m.latest_version ≤ℤ m.start_version +ℤ pos fuel
      → (r : Result (Unit {0}) × T) × (migrate_from e fuel m v t ≡ some r)
  from_returns fuel m v t h = elim (standing m v) [
    | inl same ↦ (_, from-latest fuel m v t same)
    | inr (inl newer) ↦ (_, from-newer fuel m v t newer)
    | inr (inr (inl (below, older))) ↦ (_, from-older fuel m v t below older)
    | inr (inr (inr (below, supported))) ↦
        let (r, f) =
          run_steps_returns e fuel m v t
            (later_start m.start_version v m.latest_version fuel h supported) in
        (r, from-supported fuel m v t below supported ∙ f)
  ]

  unread :
      (fuel : ℕ) (m : Migration T) (x : Error) (t : T)
      → (get_version e t).0 ≡ err x
      → migrate e fuel m t ≡ some (err (blamed m (pos 0) x), t)
  unfolding migrate
  unread fuel m x t h = rw h refl

  pub migrate-eq-from :
      (fuel : ℕ) (m : Migration T) (v : ℤ) (t : T)
      → HasVersion e t v
      → migrate e fuel m t ≡ commit_some e t (migrate_from e fuel m v t)
  unfolding migrate
  migrate-eq-from fuel m v t h = rw (h, get_version_frame e t) refl

  -- The loop ends: with fuel for the versions that are supported, `Migrate` returns on every database,
  -- whatever its steps do.
  pub migrate_returns :
      (fuel : ℕ) (m : Migration T) (t : T)
      → m.latest_version ≤ℤ m.start_version +ℤ pos fuel
      → (r : Result (Unit {0}) × T) × (migrate e fuel m t ≡ some r)
  migrate_returns fuel m t h = elim (Result-cases (get_version e t).0) [
    | inr (x, failed) ↦ (_, unread fuel m x t failed)
    | inl (v, found) ↦
        let ((r, u), f) = from_returns fuel m v t h in
        (commit_all e r t u, migrate-eq-from fuel m v t found ∙ ap (commit_some e t) f)
  ]

  -- What `Migrate` may do to a database: bring it to the latest version, or leave it alone.
  abbrev pub Outcome : Migration T → T → Result (Unit {0}) × T → Type 0
  Outcome m t (ok _, u) = Reached e m.latest_version u
  Outcome m t (err x, u) = u ≡ t

  committed :
      (m : Migration T) (r : Result (Unit {0})) (t u : T)
      → (r ≡ ok tt → Reached e m.latest_version u)
      → Outcome m t (commit_all e r t u)
  committed m (err x) t u h = refl
  committed m (ok a) t u h =
      option_keeps (Outcome m t) (e.commit t u) (ok tt, u) (λ x. (err x, t)) (λ _. h refl)
        (λ x _. refl)

  from-Reached :
      (fuel : ℕ) (m : Migration T) (v : ℤ) (t u : T)
      → HasVersion e t v
      → migrate_from e fuel m v t ≡ some (ok tt, u)
      → Reached e m.latest_version u
  from-Reached fuel m v t u h r = elim (standing m v) [
    | inl same ↦
        let f = from-latest fuel m v t same in let kept : u ≡ t = cc in (v, rw kept h, ground arith)
    | inr (inl newer) ↦ let f = from-newer fuel m v t newer in cc
    | inr (inr (inl (below, older))) ↦ let f = from-older fuel m v t below older in cc
    | inr (inr (inr (below, supported))) ↦
        run_steps-Reached e fuel m v t u h (sym (from-supported fuel m v t below supported) ∙ r)
  ]

  commit-Outcome :
      (m : Migration T) (t : T) (done : Option (Result (Unit {0}) × T)) (p : Result (Unit {0}) × T)
      → ((u : T) → done ≡ some (ok tt, u) → Reached e m.latest_version u)
      → commit_some e t done ≡ some p
      → Outcome m t p
  commit-Outcome m t none p h k = cc
  commit-Outcome m t (some (r, u)) p h k =
      let same : commit_all e r t u ≡ p = cc in
      subst (Outcome m t) same (committed m r t u (λ f. h u (ap (λ x. some (x, u)) f)))

  unread-Outcome :
      (m : Migration T) (x : Error) (t : T) (p : Result (Unit {0}) × T)
      → some (err x, t) ≡ some p
      → Outcome m t p
  unread-Outcome m x t p k = let same : (err x, t) ≡ p = cc in subst (Outcome m t) same refl

  -- `Migrate` succeeds only on a database that then has the latest version at least; when it fails,
  -- nothing was written.
  pub migrate-Outcome :
      (fuel : ℕ) (m : Migration T) (t : T) (p : Result (Unit {0}) × T)
      → migrate e fuel m t ≡ some p
      → Outcome m t p
  migrate-Outcome fuel m t p h = elim (Result-cases (get_version e t).0) [
    | inr (x, failed) ↦
        unread-Outcome m (blamed m (pos 0) x) t p (sym (unread fuel m x t failed) ∙ h)
    | inl (v, found) ↦
        commit-Outcome m t (migrate_from e fuel m v t) p (λ u r. from-Reached fuel m v t u found r)
          (sym (migrate-eq-from fuel m v t found) ∙ h)
  ]
