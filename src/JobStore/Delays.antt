-- ===== src/JobStore/Delays.antt =====
-- How long retryBackoff waits, internal/store/postgres/jobs.go.
use fleetforge.Base.{
  ℕ, zero, suc, ◌+◌, ◌-◌, ◌*◌, ◌^◌, ◌%◌, ◌≤◌, ◌<◌, ◌≡◌, refl, Bool, true, false, ◌&&◌, ◌==◌, arith,
  Bool-cases, inl, inr,
}
use Prim.Native.Nat.{min}
use native.Mathlib.Nat.{pow-suc, add-suc}
use fleetforge.Base.Int.{ℤ, pos, negsuc}
use fleetforge.JobStore.Backoff.{second, to_int64, shifted, retry_backoff}

-- min(2^a s, 60 s), in nanoseconds.
abbrev pub capped_delay : ℕ → ℕ
capped_delay a = min (2 ^ a * second) (60 * second)

abbrev delay_matches : ℕ → Bool
delay_matches a = elim (retry_backoff (pos (suc a))) [
  | pos d ↦ d == capped_delay (suc a)
  | negsuc d ↦ false
]

-- The first n attempts wait as they should.
first_match : ℕ → Bool
first_match zero = true
first_match (suc last) = first_match last && delay_matches last

among_first : (bound : ℕ) → first_match bound ≡ true → (a : ℕ) → a < bound → delay_matches a ≡ true
unfolding first_match
among_first zero h a below = absurd (omega arith)
among_first (suc last) h a below = elim (Bool-cases (a == last)) [
  | inl same ↦ let is_last : a ≡ last = ground arith in rw is_last (ground arith)
  | inr other ↦ among_first last (ground arith) a (ground arith)
]

first_33_match : first_match 33 ≡ true
unfolding first_match retry_backoff shifted to_int64
first_33_match = refl

delay_read : (r : ℤ) (d : ℕ) → (elim r [ pos c ↦ c == d | negsuc c ↦ false ]) ≡ true → r ≡ pos d
delay_read (pos c) d h = ground arith
delay_read (negsuc c) d h = absurd (cc)

-- For attempts 1 to 33 retryBackoff is exactly min(2^a s, 60 s), without jitter.
pub retry_backoff-capped : (a : ℕ) → 1 ≤ a → a ≤ 33 → retry_backoff (pos a) ≡ pos (capped_delay a)
retry_backoff-capped zero h k = absurd (omega arith)
retry_backoff-capped (suc a) h k =
    delay_read (retry_backoff (pos (suc a))) (capped_delay (suc a))
      (among_first 33 first_33_match a (omega arith))

bits_gone : (k : ℕ) → 2 ^ (55 + k) % 2 ^ 64 * second % 2 ^ 64 ≡ 0
bits_gone zero = refl
bits_gone (suc k) = rw (add-suc, pow-suc) (omega (arith, bits_gone k))

-- From attempt 55 on the 64-bit product is zero and there is no delay.
pub retry_backoff-wraps : (a : ℕ) → 55 ≤ a → retry_backoff (pos a) ≡ pos 0
unfolding retry_backoff shifted to_int64
retry_backoff-wraps a h =
    let split : 55 + (a - 55) ≡ a = omega arith in
    let gone : 2 ^ a % 2 ^ 64 * second % 2 ^ 64 ≡ 0 = rw split at (bits_gone (a - 55)) in
    ground (arith, gone)

-- At the 34th attempt the product has its sign bit set: the delay is negative, about -40 years.
retry_backoff_34 : retry_backoff (pos 34) ≡ negsuc 1_266_874_889_709_551_615
unfolding retry_backoff shifted to_int64
retry_backoff_34 = refl
