-- ===== src/Badger/Upgrade.antt =====
-- What the migrations of pool/store/badger/migration.go and versions.go make of a database.
pub mod Outcome
use vipnode.Base.{
  ℕ, zero, suc, ◌≡◌, refl, ap, sym, subst, ◌∙◌, ◌⊎◌, true, false, inl, inr, Option, none, some,
  Bool-cases, arith, option_keeps,
}
use vipnode.Base.Exec.{Result, ok, err, Error, external, Result-cases}
use vipnode.Int.{ℤ, pos, ◌+ℤ◌, ◌-ℤ◌, ◌≤ℤ◌, ◌<ℤ◌, leb_ℤ, ltb_ℤ, pos_part, int_laws}
use vipnode.Badger.{Engine, find_item, commit_all}
use vipnode.Badger.Keys.{Kind, print_key}
use vipnode.Badger.Migration.{
  Migration, eq_ℤ, blamed, get_version, advance, run_step, run_steps, nth, migrate_from, migrate,
  commit_some,
}

enough :
    (v next latest : ℤ) (fuel : ℕ)
    → latest ≤ℤ v +ℤ pos (suc fuel)
    → v <ℤ next
    → latest ≤ℤ next +ℤ pos fuel
enough v next latest fuel h up = grind int_laws

module _ {B T : Type 0} (e : Engine B T) where
  pub get_version_frame : (t : T) → (get_version e t).1 ≡ t
  unfolding get_version
  get_version_frame t = elim (Result-cases (find_item e e.versions (print_key Kind.version "") t)) [
    | inl (o, h) ↦ rw h refl
    | inr (x, h) ↦ rw h refl
  ]

  -- A round that does not fail leads to a greater version, which is the one in the database.
  pub advance_lem :
      (m : Migration T) (v next : ℤ) (t : T)
      → (advance e m v t).0 ≡ ok next
      → (v <ℤ next) × ((get_version e (advance e m v t).1).0 ≡ ok next)
  unfolding advance
  advance_lem m v next t h =
      let p = run_step e m v (nth m.steps (pos_part (v -ℤ m.start_version))) t in
      elim (Result-cases p.0) [
        | inr (x, failed) ↦ ground (arith, failed)
        | inl (_, stepped) ↦ elim (Result-cases (get_version e p.1).0) [
          | inr (x, unread) ↦ ground (arith, stepped, unread)
          | inl (w, r) ↦ elim (Bool-cases (leb_ℤ w v)) [
            | inl stuck ↦ ground (arith, stepped, r)
            | inr moved ↦ ground (arith, stepped, r, get_version_frame p.1)
          ]
        ]
      ]

  pub run_steps-done :
      (fuel : ℕ) (m : Migration T) (v : ℤ) (t : T)
      → ltb_ℤ v m.latest_version ≡ false
      → run_steps e fuel m v t ≡ some (ok tt, t)
  unfolding run_steps
  run_steps-done zero m v t h = rw h refl
  run_steps-done (suc fuel) m v t h = rw h refl

  pub run_steps-failed :
      (fuel : ℕ) (m : Migration T) (v : ℤ) (x : Error) (t : T)
      → ltb_ℤ v m.latest_version ≡ true
      → (advance e m v t).0 ≡ err x
      → run_steps e (suc fuel) m v t ≡ some (err x, (advance e m v t).1)
  unfolding run_steps
  run_steps-failed fuel m v x t h f = rw (h, f) refl

  pub run_steps-next :
      (fuel : ℕ) (m : Migration T) (v next : ℤ) (t : T)
      → ltb_ℤ v m.latest_version ≡ true
      → (advance e m v t).0 ≡ ok next
      → run_steps e (suc fuel) m v t ≡ run_steps e fuel m next (advance e m v t).1
  unfolding run_steps
  run_steps-next fuel m v next t h f = rw (h, f) refl

  pub run_steps_returns :
      (fuel : ℕ) (m : Migration T) (v : ℤ) (t : T)
      → m.latest_version ≤ℤ v +ℤ pos fuel
      → (r : Result (Unit {0}) × T) × (run_steps e fuel m v t ≡ some r)
  run_steps_returns zero m v t h = ((ok tt, t), run_steps-done zero m v t (grind int_laws))
  run_steps_returns (suc fuel) m v t h = elim (Bool-cases (ltb_ℤ v m.latest_version)) [
    | inr finished ↦ ((ok tt, t), run_steps-done (suc fuel) m v t finished)
    | inl more ↦ elim (Result-cases (advance e m v t).0) [
      | inr (x, failed) ↦ (_, run_steps-failed fuel m v x t more failed)
      | inl (next, went) ↦
          let (r, returned) =
            run_steps_returns fuel m next (advance e m v t).1
              (enough v next m.latest_version fuel h (advance_lem m v next t went).0) in
          (r, run_steps-next fuel m v next t more went ∙ returned)
    ]
  ]

  abbrev pub HasVersion : T → ℤ → Type 0
  HasVersion t v = (get_version e t).0 ≡ ok v

  -- The version that the database has when the loop is through.
  abbrev pub Reached : ℤ → T → Type 0
  Reached latest u = (w : ℤ) × HasVersion u w × (latest ≤ℤ w)

  pub ended-Reached :
      (fuel : ℕ) (m : Migration T) (v : ℤ) (t u : T)
      → HasVersion t v
      → ltb_ℤ v m.latest_version ≡ false
      → run_steps e fuel m v t ≡ some (ok tt, u)
      → Reached m.latest_version u
  ended-Reached fuel m v t u h finished r =
      let f = run_steps-done fuel m v t finished in
      let same : u ≡ t = cc in (v, rw same h, ground arith)

  pub run_steps-Reached :
      (fuel : ℕ) (m : Migration T) (v : ℤ) (t u : T)
      → HasVersion t v
      → run_steps e fuel m v t ≡ some (ok tt, u)
      → Reached m.latest_version u
  unfolding run_steps
  run_steps-Reached zero m v t u h r = elim (Bool-cases (ltb_ℤ v m.latest_version)) [
    | inr finished ↦ ended-Reached zero m v t u h finished r
    | inl more ↦ ground (arith, more)
  ]
  run_steps-Reached (suc fuel) m v t u h r = elim (Bool-cases (ltb_ℤ v m.latest_version)) [
    | inr finished ↦ ended-Reached (suc fuel) m v t u h finished r
    | inl more ↦ elim (Result-cases (advance e m v t).0) [
      | inr (x, failed) ↦ let f = run_steps-failed fuel m v x t more failed in cc
      | inl (next, went) ↦
          run_steps-Reached fuel m next (advance e m v t).1 u (advance_lem m v next t went).1
            (sym (run_steps-next fuel m v next t more went) ∙ r)
    ]
  ]
