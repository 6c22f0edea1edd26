-- ===== src/Config/Labels.antt =====
-- What parseLabels stores under a label, internal/config/config.go.
use fleetforge.Base.{
  ◌≡◌, refl, ap, subst, ◌∙◌, false, Option, none, some, List, [], ◌∷◌, Bool-cases, inl, inr,
  if◌then◌else◌,
}
use fleetforge.Base.Bytes.{Bytes, bytes_eq, bytes_eq-eq, bytes_eq_refl, split}
use fleetforge.Config.Text.{is_empty, trim_space, cut}
use fleetforge.Config.Load.{comma, Labels, put_label, add_pair, add_pairs, parse_labels}

-- The map at a key.
abbrev pub label_at : Bytes → Labels → Option Bytes
label_at k [] = none
label_at k ((k', v) ∷ m) = if bytes_eq k k' then some v else label_at k m

-- What a pair "key=value" says of a label: nothing if it has no "=" or an empty key, or another key.
abbrev pub value_in : Bytes → Option (Bytes × Bytes) → Option Bytes
value_in k none = none
value_in k (some (k', v)) =
    if is_empty k' then none else if bytes_eq k (trim_space k') then some (trim_space v) else none

abbrev pub or_else : Option Bytes → Option Bytes → Option Bytes
or_else none o = o
or_else (some v) o = some v

-- The last pair that says something.
pub last_value : Bytes → List Bytes → Option Bytes
last_value k [] = none
last_value k (p ∷ ps) = or_else (last_value k ps) (value_in k (cut b'=' p))

put_label_self : (k v : Bytes) (m : Labels) → label_at k (put_label k v m) ≡ some v
unfolding put_label
put_label_self k v [] = rw (bytes_eq_refl k) refl
put_label_self k v ((k', v') ∷ m) = elim (Bool-cases (bytes_eq k k')) [
  | inl t ↦ rw (t, bytes_eq_refl k) refl
  | inr f ↦ rw (f, f) (put_label_self k v m)
]

put_label-other :
    (k k' v : Bytes) (m : Labels)
    → bytes_eq k k' ≡ false
    → label_at k (put_label k' v m) ≡ label_at k m
unfolding put_label
put_label-other k k' v [] other = rw other refl
put_label-other k k' v ((k'', v') ∷ m) other = elim (Bool-cases (bytes_eq k' k'')) [
  | inl t ↦
      let apart : bytes_eq k k'' ≡ false =
        subst (λ x. bytes_eq k x ≡ false) (bytes_eq-eq k' k'' t) other in
      rw (t, other, apart) refl
  | inr f ↦ rw (f, put_label-other k k' v m other) refl
]

label_at-add_pair :
    (k : Bytes) (o : Option (Bytes × Bytes)) (m : Labels)
    → label_at k (add_pair o m) ≡ or_else (value_in k o) (label_at k m)
unfolding add_pair
label_at-add_pair k none m = refl
label_at-add_pair k (some (k', v)) m = elim (Bool-cases (is_empty k')) [
  | inl t ↦ rw t refl
  | inr f ↦ elim (Bool-cases (bytes_eq k (trim_space k'))) [
    | inl e ↦
        rw (f, e)
          (subst (λ x. label_at k (put_label x (trim_space v) m) ≡ some (trim_space v))
            (bytes_eq-eq _ _ e) (put_label_self k (trim_space v) m))
    | inr e ↦ rw (f, e) (put_label-other k (trim_space k') (trim_space v) m e)
  ]
]

or_else_assoc : (a b c : Option Bytes) → or_else a (or_else b c) ≡ or_else (or_else a b) c
or_else_assoc none b c = refl
or_else_assoc (some v) b c = refl

label_at-add_pairs :
    (k : Bytes) (ps : List Bytes) (m : Labels)
    → label_at k (add_pairs ps m) ≡ or_else (last_value k ps) (label_at k m)
unfolding add_pairs last_value
label_at-add_pairs k [] m = refl
label_at-add_pairs k (p ∷ ps) m =
    label_at-add_pairs k ps (add_pair (cut b'=' p) m)
    ∙ ap (or_else (last_value k ps)) (label_at-add_pair k (cut b'=' p) m)
    ∙ or_else_assoc (last_value k ps) (value_in k (cut b'=' p)) (label_at k m)

or_else-none : (a : Option Bytes) → or_else a none ≡ a
or_else-none none = refl
or_else-none (some v) = refl

-- For every text and label, parseLabels maps the label to the trimmed value of the last comma-
-- separated pair with a non-empty key that is the label when trimmed, and to nothing if there is
-- none.
pub label_at-parse_labels :
    (k raw : Bytes) → label_at k (parse_labels raw) ≡ last_value k (split comma raw)
unfolding parse_labels
label_at-parse_labels k [] = unfold last_value split cut in refl
label_at-parse_labels k (c ∷ raw) = label_at-add_pairs k (split comma (c ∷ raw)) [] ∙ or_else-none _
