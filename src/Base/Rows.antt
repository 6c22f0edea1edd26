-- ===== src/Base/Rows.antt =====
-- Tables as lists of rows, and what SQL does to them.
use Prim.Native.Nat.{ℕ, zero, suc}
use mathlib.Core.Path.{◌≡◌, refl, subst}
use mathlib.Core.Logic.{◌≢◌, inl, inr}
use mathlib.Core.Bool.{Bool, true, false}
use mathlib.Core.Option.{Option, none, some}
use mathlib.Core.List.{List, [], ◌∷◌}
use native.Mathlib.Omega.{arith}
use fleetforge.Base.Tests.{if◌then◌else◌, is_some, Bool-cases}

module _ {ℓ} {A : Type ℓ} where
  abbrev pub length : List A → ℕ
  length [] = 0
  length (x ∷ xs) = suc (length xs)

  abbrev pub take : ℕ → List A → List A
  take zero xs = []
  take (suc n) [] = []
  take (suc n) (x ∷ xs) = x ∷ take n xs

  -- SELECT … WHERE p, in the table's order.
  unfoldable pub select : (A → Bool) → List A → List A
  select p [] = []
  select p (x ∷ xs) = let rest = select p xs in if p x then x ∷ rest else rest

  -- QueryRow: the first row that matches, or `none` for pgx.ErrNoRows.
  unfoldable pub query_row : (A → Bool) → List A → Option A
  query_row p [] = none
  query_row p (x ∷ xs) = let rest = query_row p xs in if p x then some x else rest

  -- UPDATE … SET f WHERE p.
  unfoldable pub update : (A → Bool) → (A → A) → List A → List A
  update p f [] = []
  update p f (x ∷ xs) = (if p x then f x else x) ∷ update p f xs

  -- COUNT(*) … WHERE p; also the number of rows that an UPDATE affects.
  unfoldable pub count : (A → Bool) → List A → ℕ
  count p [] = 0
  count p (x ∷ xs) = let rest = count p xs in if p x then suc rest else rest

  -- ORDER BY: `before x y` says that x may stand before y. Rows that tie keep the table's order.
  unfoldable pub insert_by : (A → A → Bool) → A → List A → List A
  insert_by before x [] = x ∷ []
  insert_by before x (y ∷ ys) =
      let rest = insert_by before x ys in if before x y then x ∷ y ∷ ys else y ∷ rest

  unfoldable pub order_by : (A → A → Bool) → List A → List A
  unfolding insert_by
  order_by before [] = []
  order_by before (x ∷ xs) = insert_by before x (order_by before xs)

  -- A predicate of every row.
  abbrev pub All {κ} : (A → Type κ) → List A → Type κ
  All P [] = Unit
  All P (x ∷ xs) = P x × All P xs

  pub All-update {κ} :
      (P : A → Type κ) (p : A → Bool) (f : A → A) (xs : List A)
      → ((x : A) → p x ≡ true → P x → P (f x))
      → All P xs
      → All P (update p f xs)
  unfolding update
  All-update P p f [] keep h = tt
  All-update P p f (x ∷ xs) keep h = (ground (arith, keep x), All-update P p f xs keep h.1)

  pub All-updated {κ μ} :
      (P : A → Type κ) (Q : A → Type μ) (p : A → Bool) (f : A → A) (xs : List A)
      → ((x : A) → P x → Q (if p x then f x else x))
      → All P xs
      → All Q (update p f xs)
  unfolding update
  All-updated P Q p f [] step h = tt
  All-updated P Q p f (x ∷ xs) step h = (step x h.0, All-updated P Q p f xs step h.1)

  pub All-map {κ μ} :
      {P : A → Type κ} {Q : A → Type μ} (xs : List A) → ((x : A) → P x → Q x) → All P xs → All Q xs
  All-map [] imp h = tt
  All-map (x ∷ xs) imp h = (imp x h.0, All-map xs imp h.1)

  pub All-zip {κ μ} :
      (P : A → Type κ) (Q : A → Type μ) (xs : List A)
      → All P xs
      → All Q xs
      → All (λ x. P x × Q x) xs
  All-zip P Q [] h k = tt
  All-zip P Q (x ∷ xs) h k = ((h.0, k.0), All-zip P Q xs h.1 k.1)

  pub All-trivial : (xs : List A) → All (λ x. Unit {0}) xs
  All-trivial [] = tt
  All-trivial (x ∷ xs) = (tt, All-trivial xs)

  pub query_row_sound : (p : A → Bool) (xs : List A) {x : A} → query_row p xs ≡ some x → p x ≡ true
  unfolding query_row
  query_row_sound p [] h = absurd (cc)
  query_row_sound p (x ∷ xs) {x = y} h = ground (arith, query_row_sound p xs {x = y})

  pub All-query_row {κ} :
      (P : A → Type κ) (p : A → Bool) (xs : List A) {x : A}
      → All P xs
      → query_row p xs ≡ some x
      → P x
  unfolding query_row
  All-query_row P p [] h e = absurd (cc)
  All-query_row P p (y ∷ xs) {x} h e = elim (Bool-cases (p y)) [
    | inl t ↦ let same : y ≡ x = ground arith in subst P same h.0
    | inr f ↦ All-query_row P p xs h.1 (ground arith)
  ]

  -- A row that no one finds does not exist.
  pub query_row-none :
      (p : A → Bool) (xs : List A) → query_row p xs ≡ none → All (λ x. p x ≡ false) xs
  unfolding query_row
  query_row-none p [] h = tt
  query_row-none p (x ∷ xs) h = (ground arith, query_row-none p xs (ground arith))

  pub All-select {κ} :
      (P : A → Type κ) (p : A → Bool) (xs : List A) → All P xs → All P (select p xs)
  unfolding select
  All-select P p [] h = tt
  All-select P p (x ∷ xs) h = elim (Bool-cases (p x)) [
    | inl t ↦ rw t (h.0, All-select P p xs h.1)
    | inr f ↦ rw f (All-select P p xs h.1)
  ]

  pub select_sound : (p : A → Bool) (xs : List A) → All (λ x. p x ≡ true) (select p xs)
  unfolding select
  select_sound p [] = tt
  select_sound p (x ∷ xs) = elim (Bool-cases (p x)) [
    | inl t ↦ rw t (t, select_sound p xs)
    | inr f ↦ rw f (select_sound p xs)
  ]

  pub update_none :
      (p : A → Bool) (f : A → A) (xs : List A) → All (λ x. p x ≡ false) xs → update p f xs ≡ xs
  unfolding update
  update_none p f [] h = refl
  update_none p f (x ∷ xs) h = ground (arith, update_none p f xs h.1)

  pub count_none : (p : A → Bool) (xs : List A) → All (λ x. p x ≡ false) xs → count p xs ≡ 0
  unfolding count
  count_none p [] h = refl
  count_none p (x ∷ xs) h = ground (arith, count_none p xs h.1)

  pub count-zero : (p : A → Bool) (xs : List A) → count p xs ≡ 0 → All (λ x. p x ≡ false) xs
  unfolding count
  count-zero p [] h = tt
  count-zero p (x ∷ xs) h = (ground arith, count-zero p xs (ground arith))

  -- A row that satisfies `q` is still found after an update that keeps `q`.
  pub found-update :
      (q p : A → Bool) (f : A → A) (xs : List A)
      → ((x : A) → q x ≡ true → q (f x) ≡ true)
      → is_some (query_row q xs) ≡ true
      → is_some (query_row q (update p f xs)) ≡ true
  unfolding query_row update
  found-update q p f [] keep h = h
  found-update q p f (x ∷ xs) keep h = ground (arith, keep x, found-update q p f xs keep)

  pub found-count :
      (q p : A → Bool) (xs : List A)
      → ((x : A) → p x ≡ true → q x ≡ true)
      → count p xs ≢ 0
      → is_some (query_row q xs) ≡ true
  unfolding query_row count
  found-count q p [] imp h = absurd (h refl)
  found-count q p (x ∷ xs) imp h = ground (arith, imp x, found-count q p xs imp)

  -- After the update every row satisfies what each updated and each other row does.
  pub All-after_update {κ} :
      (P : A → Type κ) (p : A → Bool) (f : A → A) (xs : List A)
      → ((x : A) → p x ≡ true → P (f x))
      → ((x : A) → p x ≡ false → P x)
      → All P (update p f xs)
  unfolding update
  All-after_update P p f [] hit miss = tt
  All-after_update P p f (x ∷ xs) hit miss = elim (Bool-cases (p x)) [
    | inl t ↦ rw t (hit x t, All-after_update P p f xs hit miss)
    | inr e ↦ rw e (miss x e, All-after_update P p f xs hit miss)
  ]

  pub count_after_update :
      (p q : A → Bool) (f : A → A) (xs : List A)
      → ((x : A) → q x ≡ true → p (f x) ≡ false)
      → ((x : A) → q x ≡ false → p x ≡ false)
      → count p (update q f xs) ≡ 0
  unfolding count update
  count_after_update p q f [] hit miss = refl
  count_after_update p q f (x ∷ xs) hit miss =
      ground (arith, hit x, miss x, count_after_update p q f xs hit miss)

  pub query_row_missing :
      (p : A → Bool) (xs : List A) → All (λ x. p x ≡ false) xs → query_row p xs ≡ none
  unfolding query_row
  query_row_missing p [] h = refl
  query_row_missing p (x ∷ xs) h = ground (arith, query_row_missing p xs h.1)
