-- ===== src/Base/Order.antt =====
-- What stands first in a list that order_by sorted.
use mathlib.Core.Path.{◌≡◌, refl, sym, subst}
use mathlib.Core.Logic.{inl, inr}
use mathlib.Core.Bool.{Bool, true, false}
use mathlib.Core.List.{List, [], ◌∷◌, Memᴰ}
use fleetforge.Base.Tests.{Bool-cases}
use fleetforge.Base.Rows.{insert_by, order_by, All, All-map}

-- An order by a key, as ORDER BY has it.
pub record IsOrder {ℓ} {A : Type ℓ} (before : A → A → Bool) : Type ℓ where
  pub itself : (x : A) → before x x ≡ true
  pub other : {x y : A} → before x y ≡ false → before y x ≡ true
  pub chain : {x y z : A} → before x y ≡ true → before y z ≡ true → before x z ≡ true

module _ {ℓ} {A : Type ℓ} (before : A → A → Bool) where
  -- The head of the sorted list is a row that is before every row, and it has one unless there is none.
  abbrev pub Headed : List A → List A → Type ℓ
  Headed [] xs = xs ≡ []
  Headed (x ∷ sorted) xs = Memᴰ x xs × All (λ y. before x y ≡ true) xs

  module _ (order : IsOrder before) where
    open order use {itself, other, chain}

    insert_by-Headed :
        (x : A) (sorted xs : List A)
        → Headed sorted xs
        → Headed (insert_by before x sorted) (x ∷ xs)
    unfolding insert_by
    insert_by-Headed x [] xs h =
        (Memᴰ.head refl, (itself x, subst (All (λ y. before x y ≡ true)) (sym h) tt))
    insert_by-Headed x (y ∷ sorted) xs h = elim (Bool-cases (before x y)) [
      | inl t ↦ rw t (Memᴰ.head refl, (itself x, All-map xs (λ z le. chain t le) h.1))
      | inr f ↦ rw f (Memᴰ.tail h.0, (other f, h.1))
    ]

    pub order_by-Headed : (xs : List A) → Headed (order_by before xs) xs
    unfolding order_by
    order_by-Headed [] = refl
    order_by-Headed (x ∷ xs) = insert_by-Headed x (order_by before xs) xs (order_by-Headed xs)
