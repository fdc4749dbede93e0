-- ===== src/Base/Triple.antt =====
-- What holds of the state and the result of a call that succeeds.
use mathlib.Core.Path.{◌≡◌, refl, subst}
use vipnode.Base.Exec.{Exec, Result, ok, err, continue, ◌>>=◌, pure, lift}

-- From a state with `P`, if `m` succeeds, its result and the state that it leaves have `Q`.
pub record Triple {S A : Type 0} (P : S → Type 0) (m : Exec S A) (Q : A → S → Type 0) : Type 0 where
  pub at : (s : S) (a : A) → P s → (m s).0 ≡ ok a → Q a (m s).1

module _ {S A B : Type 0} {P : S → Type 0} where
  pub Triple-bind :
      (Q : A → S → Type 0) {R : B → S → Type 0} (m : Exec S A) (f : A → Exec S B)
      → Triple P m Q
      → ((a : A) → Triple (Q a) (f a) R)
      → Triple P (m >>= f) R
  Triple-bind Q {R} m f first rest = record { at = λ s b h e. go s b h (m s).0 refl e }
    where
      go :
          (s : S) (b : B)
          → P s
          → (r : Result A) → (m s).0 ≡ r
          → (continue r f (m s).1).0 ≡ ok b
          → R b (continue r f (m s).1).1
      go s b h (ok a) e k = (rest a).at (m s).1 b (first.at s a h e) k
      go s b h (err x) e k = cc

ok-injective : {A : Type 0} {a b : A} → ok a ≡ ok b → a ≡ b
ok-injective e = cc

module _ {S A : Type 0} {P : S → Type 0} where
  pub Triple-pure : (a : A) {Q : A → S → Type 0} → ((s : S) → P s → Q a s) → Triple P (pure a) Q
  Triple-pure a {Q} f = record { at = λ s b h e. subst (λ x. Q x s) (ok-injective e) (f s h) }

  pub Triple-lift : (r : Result A) → Triple P (lift r) (λ _ s. P s)
  Triple-lift r = record { at = λ s a h e. h }

  -- A condition that does not depend on the state may be assumed outside.
  pub Triple-given :
      {H : Type 0} {m : Exec S A} {Q : A → S → Type 0}
      → (H → Triple P m Q)
      → Triple (λ s. H × P s) m Q
  Triple-given f = record { at = λ s a (h, k) e. (f h).at s a k e }
