-- ===== src/Badger/Versions.antt =====
-- The two migrations of pool/store/badger/versions.go, from a database of each version.
use vipnode.Base.{String, ◌≡◌, false, Option, some, if◌then◌else◌, nat_eq}
use vipnode.Base.Exec.{Exec, Result, ok, err}
use vipnode.Int.{ℤ, pos, eqb_ℤ}
use vipnode.Badger.{Engine, EngineLaws, has_key}
use vipnode.Badger.Keys.{Kind, code, prefix, print_key}
use vipnode.Badger.Migration.{Migration, set_version, delete_all, nonce_keys, or_zero}
use vipnode.Badger.Upgrade.{HasVersion}

-- Entries other than nonces and the version are what they were.
abbrev pub Keeps : {B T : Type 0} → Engine B T → T → T → Type 0
Keeps e t u =
    (k : Kind) (i : String)
    → nat_eq (code Kind.nonce) (code k) ≡ false
    → nat_eq (code Kind.version) (code k) ≡ false
    → e.read (print_key k i) u ≡ e.read (print_key k i) t

abbrev version_of : {B T : Type 0} (e : Engine B T) → Result (Option ℤ) → Result ℤ
version_of e (ok o) = ok (or_zero e o)
version_of e (err x) = err x

module _ {B T : Type 0} {e : Engine B T} (laws : EngineLaws e) where
  abbrev cleared : T → T
  cleared t = delete_all e (e.held (nonce_keys e (e.scan (prefix Kind.nonce) t))) t

  -- The database after each step.
  abbrev at_1 : T → T
  at_1 t = (set_version e (pos 1) t).1

  abbrev at_2 : T → T
  at_2 t = (set_version e (pos 2) (cleared t)).1

  -- The nonces are gone after the second step.
  abbrev pub NoNonces : T → Type 0
  NoNonces u = (id : String) → has_key e (print_key Kind.nonce id) u ≡ false

  -- A database of a version is upgraded: it has version 2, what is neither a nonce nor the version was
  -- left alone, and the nonces are gone; all of it was left alone if it had version 2.
  abbrev pub Upgraded : ℤ → T → Option (Result (Unit {0}) × T) → Type 0
  Upgraded v t done =
      (u : T) × (done ≡ some (ok tt, u))
      × HasVersion e u (pos 2)
      × Keeps e t u
      × (if eqb_ℤ v (pos 2) then u ≡ t else NoNonces u)
