-- ===== src/Base/Exec.antt =====
-- Calls on a shared object that may fail. Go returns an error beside the object, and what was
-- written before the error stays written, so the state comes back on both ends.
use Prim.Native.String.{String}
use mathlib.Core.Bool.{Bool, true, false}
use mathlib.Core.Path.{◌≡◌, refl}
use mathlib.Core.Logic.{◌⊎◌, inl, inr}
use mathlib.Core.List.{List}
use Prim.Native.Nat.{ℕ}
use vipnode.Int.{ℤ}

-- The errors of the modelled packages. `external` is an error of code outside the repository,
-- with its message; `panic` is a panic of the Go runtime, with the faulting operation.
pub data Error : Type 0 where
  invalid_nonce unregistered_node malformed_node not_authorized : Error
  bad_signature : Error
  low_balance : ℤ → ℤ → Error
  invalid_interval : Error
  withdraw_disabled : Error
  withdraw_minimum : ℤ → ℤ → Error
  missing_wallet : Error
  key_not_found : Error
  migration_failed : ℤ → ℤ → String → Error → Error
  verify_failed : String → Error → Error
  no_host_nodes : ℕ → Error
  remote_host_errors : String → List String → Error
  wrong_network : ℤ → Error
  rpc_error : ℤ → String → Error
  compatibility_error : Error → String → Error
  already_started no_peers : Error
  deposit_timelocked : Error
  address_mismatch : String → String → String → Error
  agent_pool_failed : Error → String → Error
  disconnect_failed : List String → Error
  external : String → Error
  panic : String → Error

pub data Result {ℓ} (A : Type ℓ) : Type ℓ where
  ok : A → Result A
  err : Error → Result A

abbrev pub Exec : Type 0 → Type 0 → Type 0
Exec S A = S → Result A × S

module _ {S A : Type 0} where
  abbrev pub pure : A → Exec S A
  pure a s = (ok a, s)

  abbrev pub raise : Error → Exec S A
  raise e s = (err e, s)

  abbrev pub lift : Result A → Exec S A
  lift r s = (r, s)

  abbrev pub gets : (S → A) → Exec S A
  gets f s = (ok (f s), s)

abbrev pub modify : {S : Type 0} → (S → S) → Exec S (Unit {0})
modify f s = (ok tt, f s)

abbrev pub continue : {S A B : Type 0} → Result A → (A → Exec S B) → Exec S B
continue (ok x) k s = k x s
continue (err problem) k s = (err problem, s)

infixl 5 ◌>>=◌ ◌>>◌
abbrev pub ◌>>=◌ : {S A B : Type 0} → Exec S A → (A → Exec S B) → Exec S B
◌>>=◌ m f s = let (r, s') = m s in continue r f s'

abbrev pub ◌>>◌ : {S A B : Type 0} → Exec S A → Exec S B → Exec S B
m >> k = m >>= λ _. k

abbrev pub raise_if : {S : Type 0} → Bool → Error → Exec S (Unit {0})
raise_if true e s = (err e, s)
raise_if false e s = (ok tt, s)

-- A successful chain: its first step succeeds, and the rest goes on from there.
pub bind-eq-ok :
    {S A B : Type 0} (m : Exec S A) (f : A → Exec S B) (s : S) {b : B}
    → ((m >>= f) s).0 ≡ ok b
    → (a : A) × ((m s).0 ≡ ok a) × ((f a (m s).1).0 ≡ ok b)
bind-eq-ok {S} {A} {B} m f s {b} h = go (m s).0 refl h
  where
    go :
        (r : Result A)
        → (m s).0 ≡ r
        → (continue r f (m s).1).0 ≡ ok b
        → (a : A) × ((m s).0 ≡ ok a) × ((f a (m s).1).0 ≡ ok b)
    go (ok a) e k = (a, e, k)
    go (err x) e k = cc

pub Result-cases {ℓ} :
    {A : Type ℓ} (r : Result A) → ((x : A) × (r ≡ ok x)) ⊎ ((problem : Error) × (r ≡ err problem))
Result-cases (ok x) = inl (x, refl)
Result-cases (err problem) = inr (problem, refl)

-- A property of both ends of a split on a result is one of the split.
pub result_keeps {ℓ κ} :
    {A : Type 0} {B : Type ℓ} (P : B → Type κ) (r : Result A) (f : A → B) (g : Error → B)
    → ((a : A) → r ≡ ok a → P (f a))
    → ((e : Error) → r ≡ err e → P (g e))
    → P (elim r [ ok a ↦ f a | err e ↦ g e ])
result_keeps P (ok a) f g h k = h a refl
result_keeps P (err e) f g h k = k e refl
