-- ===== src/Base/Bytes.antt =====
-- Texts that the program walks, as lists of bytes, and what it uses of Go's package strings.
use Prim.Native.Nat.{ℕ}
use Prim.Native.Char.{code}
use Prim.Native.String.{String}
use mathlib.Core.Path.{◌≡◌, refl, sym, ap, ◌∙◌}
use mathlib.Core.Logic.{◌≢◌, inl, inr}
use mathlib.Core.Bool.{Bool, true, false, ◌&&◌}
use mathlib.Core.List.{List, [], ◌∷◌, ◌++◌}
use native.Mathlib.Omega.{arith}
use fleetforge.Base.Tests.{◌==◌, if◌then◌else◌, Bool-cases}
use fleetforge.Base.Rows.{All}

abbrev pub Bytes : Type 0
Bytes = List ℕ

-- The bytes of a literal of ASCII characters.
abbrev pub codes : String → Bytes
codes String.[] = []
codes (String.◌∷◌ c s) = code c ∷ codes s

abbrev pub bytes_eq : Bytes → Bytes → Bool
bytes_eq [] [] = true
bytes_eq [] (c ∷ s) = false
bytes_eq (c ∷ s) [] = false
bytes_eq (b ∷ s) (c ∷ t) = b == c && bytes_eq s t

pub bytes_eq-eq : (s t : Bytes) → bytes_eq s t ≡ true → s ≡ t
bytes_eq-eq [] [] h = refl
bytes_eq-eq [] (c ∷ t) h = absurd (cc)
bytes_eq-eq (b ∷ s) [] h = absurd (cc)
bytes_eq-eq (b ∷ s) (c ∷ t) h = ground (arith, bytes_eq-eq s t)

pub bytes_eq_refl : (s : Bytes) → bytes_eq s s ≡ true
bytes_eq_refl [] = refl
bytes_eq_refl (b ∷ s) = ground (arith, bytes_eq_refl s)

abbrev pub Lacks : ℕ → Bytes → Type 0
Lacks b = All (λ c. (c == b) ≡ false)

-- The head of the first part.
abbrev pub put_front : ℕ → List Bytes → List Bytes
put_front c [] = (c ∷ []) ∷ []
put_front c (p ∷ ps) = (c ∷ p) ∷ ps

-- strings.Split with a separator of one byte.
unfoldable pub split : ℕ → Bytes → List Bytes
split sep [] = [] ∷ []
split sep (c ∷ s) = let rest = split sep s in if c == sep then [] ∷ rest else put_front c rest

-- strings.Join.
unfoldable pub join : ℕ → List Bytes → Bytes
join sep [] = []
join sep (p ∷ []) = p
join sep (p ∷ q ∷ ps) = p ++ sep ∷ join sep (q ∷ ps)

split_part :
    (sep : ℕ) (p rest : Bytes) → Lacks sep p → split sep (p ++ sep ∷ rest) ≡ p ∷ split sep rest
unfolding split
split_part sep [] rest h = ground arith
split_part sep (c ∷ p) rest h = ground (arith, split_part sep p rest h.1)

split_last : (sep : ℕ) (p : Bytes) → Lacks sep p → split sep p ≡ p ∷ []
unfolding split
split_last sep [] h = refl
split_last sep (c ∷ p) h = ground (arith, split_last sep p h.1)

-- Parts without the separator are read back from what they were joined to.
pub split-join :
    (sep : ℕ) (ps : List Bytes) → ps ≢ [] → All (Lacks sep) ps → split sep (join sep ps) ≡ ps
unfolding join
split-join sep [] some_part h = absurd (some_part refl)
split-join sep (p ∷ []) some_part h = split_last sep p h.0
split-join sep (p ∷ q ∷ ps) some_part h =
    split_part sep p (join sep (q ∷ ps)) h.0
    ∙ ap (λ (qs : List Bytes). p ∷ qs) (split-join sep (q ∷ ps) (λ e. cc) h.1)

join-put_front :
    (sep c : ℕ) (ps : List Bytes) → ps ≢ [] → join sep (put_front c ps) ≡ c ∷ join sep ps
unfolding join
join-put_front sep c [] h = absurd (h refl)
join-put_front sep c (p ∷ []) h = refl
join-put_front sep c (p ∷ q ∷ ps) h = refl

join_empty_part : (sep : ℕ) (ps : List Bytes) → ps ≢ [] → join sep ([] ∷ ps) ≡ sep ∷ join sep ps
unfolding join
join_empty_part sep [] h = absurd (h refl)
join_empty_part sep (p ∷ ps) h = refl

put_front-ne-nil : (c : ℕ) (ps : List Bytes) → put_front c ps ≢ []
put_front-ne-nil c [] h = cc
put_front-ne-nil c (p ∷ ps) h = cc

split-ne-nil : (sep : ℕ) (s : Bytes) → split sep s ≢ []
unfolding split
split-ne-nil sep [] = λ h. cc
split-ne-nil sep (c ∷ s) = elim (Bool-cases (c == sep)) [
  | inl t ↦ rw t (λ h. cc)
  | inr f ↦ rw f (put_front-ne-nil c (split sep s))
]

-- The parts of a text, joined again, spell the text.
pub join-split : (sep : ℕ) (s : Bytes) → join sep (split sep s) ≡ s
unfolding split
join-split sep [] = unfold join in refl
join-split sep (c ∷ s) = elim (Bool-cases (c == sep)) [
  | inl t ↦
      let same : c ≡ sep = ground arith in
      rw t (
        join_empty_part sep (split sep s) (split-ne-nil sep s)
        ∙ (λ i. sym same i ∷ join-split sep s i))
  | inr f ↦ rw f (
      join-put_front sep c (split sep s) (split-ne-nil sep s)
      ∙ ap (λ (t : Bytes). c ∷ t) (join-split sep s))
]

put_front-Lacks :
    (sep c : ℕ) (ps : List Bytes)
    → (c == sep) ≡ false
    → All (Lacks sep) ps
    → All (Lacks sep) (put_front c ps)
put_front-Lacks sep c [] e h = ((e, tt), tt)
put_front-Lacks sep c (p ∷ ps) e h = ((e, h.0), h.1)

-- No part has the separator.
pub split-Lacks : (sep : ℕ) (s : Bytes) → All (Lacks sep) (split sep s)
unfolding split
split-Lacks sep [] = (tt, tt)
split-Lacks sep (c ∷ s) = elim (Bool-cases (c == sep)) [
  | inl t ↦ rw t (tt, split-Lacks sep s)
  | inr f ↦ rw f (put_front-Lacks sep c (split sep s) f (split-Lacks sep s))
]
