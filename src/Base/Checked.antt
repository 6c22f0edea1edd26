-- ===== src/Base/Checked.antt =====
-- A result or an error, as Go's second result, with the lemma that takes a chain of them apart.
use mathlib.Core.Path.{◌≡◌, refl}
use mathlib.Core.Option.{Option, none, some}
use mathlib.Core.Bool.{Bool, true, false}

pub data Checked {ℓ κ} (E : Type κ) (A : Type ℓ) : Type (ℓ ⊔ κ) where
  passed : A → Checked E A
  refused : E → Checked E A

infixl 5 ◌>>=◌
unfoldable pub ◌>>=◌ {ℓ κ μ} :
    {E : Type κ} {A : Type ℓ} {B : Type μ} → Checked E A → (A → Checked E B) → Checked E B
passed a >>= f = f a
refused e >>= f = refused e

-- `if err != nil { return nil, ... }`.
unfoldable pub or_refused {ℓ κ} : {E : Type κ} {A : Type ℓ} → E → Option A → Checked E A
or_refused e none = refused e
or_refused e (some a) = passed a

unfoldable pub check {κ} : {E : Type κ} → Bool → E → Checked E (Unit {0})
check true e = passed tt
check false e = refused e

module _ {ℓ κ} {E : Type κ} {A : Type ℓ} where
  pub passed-bind {μ} :
      {B : Type μ} (m : Checked E A) (f : A → Checked E B) {b : B}
      → (m >>= f) ≡ passed b
      → (a : A) × (m ≡ passed a) × (f a ≡ passed b)
  unfolding ◌>>=◌
  passed-bind (passed a) f h = (a, refl, h)
  passed-bind (refused e) f h = absurd (cc)

  pub passed-or_refused : (e : E) (o : Option A) {a : A} → or_refused e o ≡ passed a → o ≡ some a
  unfolding or_refused
  passed-or_refused e none h = absurd (cc)
  passed-or_refused e (some a) h = cc

  pub passed-inj : {a b : A} → ◌≡◌ {A = Checked E A} (passed a) (passed b) → a ≡ b
  passed-inj h = cc
