-- ===== src/Config/Text.antt =====
-- What internal/config uses of Go's strings and strconv. A text is a list of code points.
use fleetforge.Base.{
  ℕ, zero, suc, ◌+◌, ◌-◌, ◌*◌, ◌^◌, Bool, true, false, ◌==◌, ◌&&◌, ◌||◌, ltb, leb, Option, none,
  some, [], ◌∷◌, if◌then◌else◌,
}
use fleetforge.Base.Int.{ℤ, pos, negsuc}
use fleetforge.Base.Bytes.{Bytes}

abbrev pub is_empty : Bytes → Bool
is_empty [] = true
is_empty (c ∷ s) = false

abbrev pub in_range : ℕ → ℕ → ℕ → Bool
in_range lo hi c = leb lo c && leb c hi

-- unicode.IsSpace.
unfoldable pub is_space : ℕ → Bool
is_space c =
    in_range 9 13 c
    || c == 32
    || c == 133
    || c == 160
    || c == 5760
    || in_range 8192 8202 c
    || c == 8232
    || c == 8233
    || c == 8239
    || c == 8287
    || c == 12288

unfoldable pub trim_left : Bytes → Bytes
trim_left [] = []
trim_left (c ∷ s) = let rest = trim_left s in if is_space c then rest else c ∷ s

unfoldable pub trim_right : Bytes → Bytes
trim_right [] = []
trim_right (c ∷ s) = let rest = trim_right s in if is_space c && is_empty rest then [] else c ∷ rest

-- strings.TrimSpace.
unfoldable pub trim_space : Bytes → Bytes
unfolding trim_left trim_right
trim_space s = trim_right (trim_left s)

-- strings.Cut with a separator of one code point: what is before its first occurrence and what is
-- after.
abbrev pub put_before : ℕ → Option (Bytes × Bytes) → Option (Bytes × Bytes)
put_before c none = none
put_before c (some (k, v)) = some (c ∷ k, v)

unfoldable pub cut : ℕ → Bytes → Option (Bytes × Bytes)
cut sep [] = none
cut sep (c ∷ s) = let rest = cut sep s in if c == sep then some ([], s) else put_before c rest

-- The value of decimal digits after those that `n` is the value of.
unfoldable pub digits_value : ℕ → Bytes → Option ℕ
digits_value n [] = some n
digits_value n (c ∷ s) =
    let rest = digits_value (n * 10 + (c - 48)) s in if in_range 48 57 c then rest else none

abbrev pub int_limit : ℕ
int_limit = 2 ^ 63

unfoldable pub positive_int : Option ℕ → Option ℤ
positive_int none = none
positive_int (some n) = if ltb n int_limit then some (pos n) else none

abbrev pub negate : ℕ → ℤ
negate zero = pos 0
negate (suc n) = negsuc n

unfoldable pub negative_int : Option ℕ → Option ℤ
negative_int none = none
negative_int (some n) = if leb n int_limit then some (negate n) else none

unfoldable pub some_digits : Bytes → Option ℕ
unfolding digits_value
some_digits [] = none
some_digits (c ∷ s) = digits_value 0 (c ∷ s)

-- strconv.Atoi, with an int of 64 bits: `none` is its error.
unfoldable pub atoi : Bytes → Option ℤ
unfolding positive_int negative_int some_digits
atoi [] = none
atoi (c ∷ s) =
    if c == b'+'
    then positive_int (some_digits s)
    else if c == b'-'
    then negative_int (some_digits s)
    else positive_int (some_digits (c ∷ s))
