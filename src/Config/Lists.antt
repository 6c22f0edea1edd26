-- ===== src/Config/Lists.antt =====
-- parseList reads back the lists that are joined with commas, internal/config/config.go.
use fleetforge.Base.{
  ℕ, ◌≡◌, ◌≢◌, refl, ap, ◌∙◌, false, ◌&&◌, List, [], ◌∷◌, All, Bool-cases, inl, inr,
}
use fleetforge.Base.Bytes.{Bytes, Lacks, split, join, split-join, split-Lacks}
use fleetforge.Config.Text.{is_empty, is_space, trim_left, trim_right, trim_space}
use fleetforge.Config.Load.{keep_filled, filled, comma, parse_list}

-- The text does not start with a space.
StartsFilled : Bytes → Type 0
StartsFilled [] = Unit {0}
StartsFilled (c ∷ s) = is_space c ≡ false

trim_left-StartsFilled : (s : Bytes) → StartsFilled (trim_left s)
unfolding trim_left StartsFilled
trim_left-StartsFilled [] = tt
trim_left-StartsFilled (c ∷ s) = elim (Bool-cases (is_space c)) [
  | inl t ↦ rw t (trim_left-StartsFilled s)
  | inr f ↦ rw f f
]

trim_left_id : (s : Bytes) → StartsFilled s → trim_left s ≡ s
unfolding trim_left StartsFilled
trim_left_id [] h = refl
trim_left_id (c ∷ s) h = rw h refl

trim_right-StartsFilled : (s : Bytes) → StartsFilled s → StartsFilled (trim_right s)
unfolding trim_right StartsFilled
trim_right-StartsFilled [] h = tt
trim_right-StartsFilled (c ∷ s) h = rw h h

trim_right_idem : (s : Bytes) → trim_right (trim_right s) ≡ trim_right s
unfolding trim_right
trim_right_idem [] = refl
trim_right_idem (c ∷ s) = elim (Bool-cases (is_space c && is_empty (trim_right s))) [
  | inl t ↦ rw t refl
  | inr f ↦ rw f (rw (trim_right_idem s) (rw f refl))
]

trim_space_idem : (s : Bytes) → trim_space (trim_space s) ≡ trim_space s
unfolding trim_space
trim_space_idem s =
    ap trim_right (
      trim_left_id (trim_right (trim_left s))
        (trim_right-StartsFilled (trim_left s) (trim_left-StartsFilled s)))
    ∙ trim_right_idem (trim_left s)

module _ (b : ℕ) where
  trim_left-Lacks : (s : Bytes) → Lacks b s → Lacks b (trim_left s)
  unfolding trim_left
  trim_left-Lacks [] h = tt
  trim_left-Lacks (c ∷ s) h = elim (Bool-cases (is_space c)) [
    | inl t ↦ rw t (trim_left-Lacks s h.1)
    | inr f ↦ rw f h
  ]

  trim_right-Lacks : (s : Bytes) → Lacks b s → Lacks b (trim_right s)
  unfolding trim_right
  trim_right-Lacks [] h = tt
  trim_right-Lacks (c ∷ s) h = elim (Bool-cases (is_space c && is_empty (trim_right s))) [
    | inl t ↦ rw t tt
    | inr f ↦ rw f (h.0, trim_right-Lacks s h.1)
  ]

  trim_space-Lacks : (s : Bytes) → Lacks b s → Lacks b (trim_space s)
  unfolding trim_space
  trim_space-Lacks s h = trim_right-Lacks (trim_left s) (trim_left-Lacks s h)

-- An item of a list: it is trimmed, it is not empty, and it has no comma.
pub record IsItem (p : Bytes) : Type 0 where
  pub trimmed : trim_space p ≡ p
  pub solid : p ≢ []
  pub whole : Lacks comma p

keep_filled-IsItem :
    (p : Bytes) (ps : List Bytes)
    → trim_space p ≡ p
    → Lacks comma p
    → All IsItem ps
    → All IsItem (keep_filled p ps)
keep_filled-IsItem [] ps trimmed whole h = h
keep_filled-IsItem (c ∷ p) ps trimmed whole h =
    (record { trimmed = trimmed; solid = λ e. absurd (cc); whole = whole }, h)

filled-IsItem : (ps : List Bytes) → All (Lacks comma) ps → All IsItem (filled ps)
unfolding filled
filled-IsItem [] h = tt
filled-IsItem (p ∷ ps) h =
    keep_filled-IsItem (trim_space p) (filled ps) (trim_space_idem p) (trim_space-Lacks comma p h.0)
      (filled-IsItem ps h.1)

-- Every capability.
pub parse_list-IsItem : (raw : Bytes) → All IsItem (parse_list raw)
unfolding parse_list
parse_list-IsItem [] = tt
parse_list-IsItem (c ∷ raw) = filled-IsItem (split comma (c ∷ raw)) (split-Lacks comma (c ∷ raw))

keep_filled_lem : (p : Bytes) (ps : List Bytes) → p ≢ [] → keep_filled p ps ≡ p ∷ ps
keep_filled_lem [] ps h = absurd (h refl)
keep_filled_lem (c ∷ p) ps h = refl

filled_id : (ps : List Bytes) → All IsItem ps → filled ps ≡ ps
unfolding filled
filled_id [] h = refl
filled_id (p ∷ ps) h = rw (h.0.trimmed, filled_id ps h.1) (keep_filled_lem p ps h.0.solid)

items_whole : (ps : List Bytes) → All IsItem ps → All (Lacks comma) ps
items_whole [] h = tt
items_whole (p ∷ ps) h = (h.0.whole, items_whole ps h.1)

parse_list-filled : (raw : Bytes) → parse_list raw ≡ filled (split comma raw)
unfolding parse_list
parse_list-filled [] = unfold filled trim_space split in refl
parse_list-filled (c ∷ raw) = refl

-- A list of capabilities that are trimmed, not empty and without a comma is read back from the
-- text of its items joined with commas.
pub parse_list-join : (ps : List Bytes) → All IsItem ps → parse_list (join comma ps) ≡ ps
parse_list-join [] h = unfold parse_list join in refl
parse_list-join (p ∷ ps) h =
    parse_list-filled (join comma (p ∷ ps))
    ∙ ap filled (split-join comma (p ∷ ps) (λ e. cc) (items_whole (p ∷ ps) h))
    ∙ filled_id (p ∷ ps) h
