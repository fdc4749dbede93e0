-- ===== src/Base/Fallible.antt =====
-- Pure functions that may fail: `do` over results.
use mathlib.Core.Path.{◌≡◌, refl}
use vipnode.Base.Exec.{Result, ok, err}

infixl 5 ◌>>=◌ ◌>>◌
abbrev pub ◌>>=◌ : {A B : Type 0} → Result A → (A → Result B) → Result B
r >>= k = elim r [ ok x ↦ k x | err problem ↦ err problem ]

abbrev pub ◌>>◌ : {B : Type 0} → Result (Unit {0}) → Result B → Result B
first >> second = elim first [ ok _ ↦ second | err problem ↦ err problem ]

-- A chain that succeeds: its first step does, and so does the rest.
pub chain_ok :
    {A B : Type 0} (r : Result A) (k : A → Result B) {b : B}
    → (r >>= k) ≡ ok b
    → (a : A) × (r ≡ ok a) × (k a ≡ ok b)
chain_ok (ok a) k h = (a, refl, h)
chain_ok (err x) k h = cc
