-- ===== src/Base/Members.antt =====
-- Members of a list and of what a query selects.
use mathlib.Core.Path.{◌≡◌, refl, sym, ap, subst, ◌∙◌}
use mathlib.Core.Logic.{◌≢◌, inl, inr}
use mathlib.Core.Bool.{Bool, true}
use mathlib.Core.Option.{some}
use mathlib.Core.List.{List, [], ◌∷◌, map, Memᴰ}
use mathlib.Core.List.Memᴰ
use native.Mathlib.Omega.{arith}
use fleetforge.Base.Tests.{Bool-cases}
use fleetforge.Base.Rows.{select, count, query_row, All}

module _ {ℓ} {A : Type ℓ} where
  pub mem_select :
      (p : A → Bool) {x : A} (xs : List A) → Memᴰ x (select p xs) → Memᴰ x xs × (p x ≡ true)
  unfolding select
  mem_select p [] m = elim m [ ]
  mem_select p (y ∷ ys) m = elim (Bool-cases (p y)) [
    | inl t ↦ elim (Memᴰ.cases_cons (rw t at m)) [
      | inl e ↦ (Memᴰ.head e, ap p e ∙ t)
      | inr n ↦ (let rest = mem_select p ys n in (Memᴰ.tail rest.0, rest.1))
    ]
    | inr f ↦ (let rest = mem_select p ys (rw f at m) in (Memᴰ.tail rest.0, rest.1))
  ]

  pub All-mem {κ} : (P : A → Type κ) {x : A} (xs : List A) → All P xs → Memᴰ x xs → P x
  All-mem P [] h m = elim m [ ]
  All-mem P (y ∷ ys) h (Memᴰ.head e) = subst P (sym e) h.0
  All-mem P (y ∷ ys) h (Memᴰ.tail m) = All-mem P ys h.1 m

  module _ (p : A → Bool) {x : A} (hit : p x ≡ true) where
    pub select-nonempty : (xs : List A) → Memᴰ x xs → select p xs ≢ []
    unfolding select
    select-nonempty [] m = elim m [ ]
    select-nonempty (y ∷ ys) (Memᴰ.head e) =
        let t : p y ≡ true = ap p (sym e) ∙ hit in rw t (λ h. cc)
    select-nonempty (y ∷ ys) (Memᴰ.tail m) = elim (Bool-cases (p y)) [
      | inl t ↦ rw t (λ h. cc)
      | inr f ↦ rw f (select-nonempty ys m)
    ]

    pub count-nonzero : (xs : List A) → Memᴰ x xs → count p xs ≢ 0
    unfolding count
    count-nonzero [] m = elim m [ ]
    count-nonzero (y ∷ ys) (Memᴰ.head e) =
        let t : p y ≡ true = ap p (sym e) ∙ hit in rw t (λ h. omega (arith, h))
    count-nonzero (y ∷ ys) (Memᴰ.tail m) = elim (Bool-cases (p y)) [
      | inl t ↦ rw t (λ h. omega (arith, h))
      | inr f ↦ rw f (count-nonzero ys m)
    ]

  pub query_row-mem : (p : A → Bool) (xs : List A) {x : A} → query_row p xs ≡ some x → Memᴰ x xs
  unfolding query_row
  query_row-mem p [] h = absurd (cc)
  query_row-mem p (y ∷ ys) {x} h = elim (Bool-cases (p y)) [
    | inl t ↦ Memᴰ.head (ground arith)
    | inr f ↦ Memᴰ.tail (query_row-mem p ys (ground arith))
  ]

pub mem_map {ℓ κ} :
    {A : Type ℓ} {B : Type κ} (f : A → B) {y : B} (xs : List A)
    → Memᴰ y (map f xs)
    → (x : A) × Memᴰ x xs × (f x ≡ y)
mem_map f [] m = elim m [ ]
mem_map f (x ∷ xs) m = elim (Memᴰ.cases_cons m) [
  | inl e ↦ (x, Memᴰ.head refl, sym e)
  | inr n ↦ let (z, listed, is_y) = mem_map f xs n in (z, Memᴰ.tail listed, is_y)
]
