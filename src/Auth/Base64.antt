-- ===== src/Auth/Base64.antt =====
-- encoding/base64's RawURLEncoding, which internal/auth/jwt.go uses: six bits to a character, no
-- padding. Decoding skips line breaks and ignores the last character's unused bits.
use fleetforge.Base.{
  ℕ, ◌+◌, ◌-◌, ◌*◌, ◌/◌, ◌%◌, ◌<◌, ◌≡◌, refl, ap, ◌∙◌, false, ◌||◌, ◌&&◌, Option, none, some, List,
  [], ◌∷◌, arith, ◌==◌, ltb, leb, if◌then◌else◌, All,
}
use fleetforge.Base.Bytes.{Bytes, Lacks}

digit : ℕ → ℕ
digit n =
    if ltb n 26
    then 65 + n
    else if ltb n 52
    then 71 + n
    else if ltb n 62
    then n - 4
    else if n == 62
    then b'-'
    else b'_'

value : ℕ → Option ℕ
value c =
    if leb b'A' c && leb c b'Z'
    then some (c - 65)
    else if leb b'a' c && leb c b'z'
    then some (c - 71)
    else if leb b'0' c && leb c b'9'
    then some (c + 4)
    else if c == b'-'
    then some 62
    else if c == b'_'
    then some 63
    else none

unfoldable pub encode : Bytes → Bytes
unfolding digit
encode [] = []
encode (a ∷ []) = digit (a / 4) ∷ digit (a % 4 * 16) ∷ []
encode (a ∷ b ∷ []) = digit (a / 4) ∷ digit (a % 4 * 16 + b / 16) ∷ digit (b % 16 * 4) ∷ []
encode (a ∷ b ∷ c ∷ s) =
    digit (a / 4)
    ∷ digit (a % 4 * 16 + b / 16)
    ∷ digit (b % 16 * 4 + c / 64)
    ∷ digit (c % 64)
    ∷ encode s

abbrev put_value : Option ℕ → Option (List ℕ) → Option (List ℕ)
put_value none o = none
put_value (some v) none = none
put_value (some v) (some vs) = some (v ∷ vs)

-- The six bits of each character that is no line break.
values : Bytes → Option (List ℕ)
unfolding value
values [] = some []
values (c ∷ s) =
    let rest = values s in if c == 10 || c == 13 then rest else put_value (value c) rest

abbrev put_three : ℕ → ℕ → ℕ → Option Bytes → Option Bytes
put_three a b c none = none
put_three a b c (some s) = some (a ∷ b ∷ c ∷ s)

groups : List ℕ → Option Bytes
groups [] = some []
groups (x ∷ []) = none
groups (x ∷ y ∷ []) = some ((x * 4 + y / 16) ∷ [])
groups (x ∷ y ∷ z ∷ []) = some ((x * 4 + y / 16) ∷ (y % 16 * 16 + z / 4) ∷ [])
groups (x ∷ y ∷ z ∷ w ∷ vs) =
    put_three (x * 4 + y / 16) (y % 16 * 16 + z / 4) (z % 4 * 64 + w) (groups vs)

abbrev decode_values : Option (List ℕ) → Option Bytes
decode_values none = none
decode_values (some vs) = groups vs

unfoldable pub decode : Bytes → Option Bytes
unfolding values groups
decode s = decode_values (values s)

-- The characters that stand for given six bits are read back.
sextets : Bytes → List ℕ
sextets [] = []
sextets (a ∷ []) = (a / 4) ∷ (a % 4 * 16) ∷ []
sextets (a ∷ b ∷ []) = (a / 4) ∷ (a % 4 * 16 + b / 16) ∷ (b % 16 * 4) ∷ []
sextets (a ∷ b ∷ c ∷ s) =
    (a / 4) ∷ (a % 4 * 16 + b / 16) ∷ (b % 16 * 4 + c / 64) ∷ (c % 64) ∷ sextets s

abbrev put_first : ℕ → Option (List ℕ) → Option (List ℕ)
put_first n o = put_value (some n) o

values-digit : (n : ℕ) (s : Bytes) → n < 64 → values (digit n ∷ s) ≡ put_first n (values s)
unfolding values value digit
values-digit n s h = ground arith

abbrev pub IsByte : ℕ → Type 0
IsByte b = b < 256

values_nil : values [] ≡ some []
unfolding values
values_nil = refl

values_step :
    (n : ℕ) (s : Bytes) (vs : List ℕ)
    → n < 64
    → values s ≡ some vs
    → values (digit n ∷ s) ≡ some (n ∷ vs)
values_step n s vs h rest = values-digit n s h ∙ ap (put_first n) rest

values-encode : (s : Bytes) → All IsByte s → values (encode s) ≡ some (sextets s)
unfolding encode sextets
values-encode [] h = values_nil
values-encode (a ∷ []) h =
    values_step _ _ _ (omega arith) (values_step _ _ _ (omega arith) values_nil)
values-encode (a ∷ b ∷ []) h =
    values_step _ _ _ (omega arith)
      (values_step _ _ _ (omega arith) (values_step _ _ _ (omega arith) values_nil))
values-encode (a ∷ b ∷ c ∷ s) h = values_step _ _ _ (omega arith) (
    values_step _ _ _ (omega arith)
      (values_step _ _ _ (omega arith) (values_step _ _ _ (omega arith) (values-encode s h.1.1.1))))

three_eq :
    {a b c a' b' c' : ℕ} (o : Option Bytes) (s : Bytes)
    → a ≡ a'
    → b ≡ b'
    → c ≡ c'
    → o ≡ some s
    → put_three a b c o ≡ some (a' ∷ b' ∷ c' ∷ s)
three_eq o s p q r e = λ i. put_three (p i) (q i) (r i) (e i)

groups-sextets : (s : Bytes) → All IsByte s → groups (sextets s) ≡ some s
unfolding groups sextets
groups-sextets [] h = refl
groups-sextets (a ∷ []) h =
    let same : a / 4 * 4 + a % 4 * 16 / 16 ≡ a = omega arith in ap (λ x. some (x ∷ [])) same
groups-sextets (a ∷ b ∷ []) h =
    let first : a / 4 * 4 + (a % 4 * 16 + b / 16) / 16 ≡ a = omega arith in
    let second : (a % 4 * 16 + b / 16) % 16 * 16 + b % 16 * 4 / 4 ≡ b = omega arith in
    λ i. some (first i ∷ second i ∷ [])
groups-sextets (a ∷ b ∷ c ∷ s) h =
    three_eq (groups (sextets s)) s (omega arith) (omega arith) (omega arith)
      (groups-sextets s h.1.1.1)

-- Decoding gives the bytes back that were encoded.
pub decode-encode : (s : Bytes) → All IsByte s → decode (encode s) ≡ some s
unfolding decode
decode-encode s h = ap decode_values (values-encode s h) ∙ groups-sextets s h

digit_dot : (n : ℕ) → (digit n == b'.') ≡ false
unfolding digit
digit_dot n = ground arith

-- An encoded text holds no dot.
pub encode-Lacks : (s : Bytes) → Lacks b'.' (encode s)
unfolding encode
encode-Lacks [] = tt
encode-Lacks (a ∷ []) = (digit_dot (a / 4), (digit_dot (a % 4 * 16), tt))
encode-Lacks (a ∷ b ∷ []) =
    (digit_dot (a / 4), (digit_dot (a % 4 * 16 + b / 16), (digit_dot (b % 16 * 4), tt)))
encode-Lacks (a ∷ b ∷ c ∷ s) = (
  digit_dot (a / 4),
  (
    digit_dot (a % 4 * 16 + b / 16),
    (digit_dot (b % 16 * 4 + c / 64), (digit_dot (c % 64), encode-Lacks s)),
  ),
)
