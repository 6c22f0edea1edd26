-- ===== src/JobStore/Backoff.antt =====
-- retryBackoff and the fixed-width arithmetic around it, internal/store/postgres/jobs.go.
use fleetforge.Base.{ℕ, zero, suc, ◌+◌, ◌-◌, ◌*◌, ◌^◌, ◌%◌, ◌==◌, ltb, if◌then◌else◌}
use fleetforge.Base.Int.{ℤ, pos, negsuc, ltb_ℤ, pos_part}
use fleetforge.Schema.{Instant}

abbrev pub second : ℕ
second = 1_000_000_000

-- An `int64` from its 64 bits.
unfoldable pub to_int64 : ℕ → ℤ
to_int64 bits =
    if ltb bits 9_223_372_036_854_775_808
    then pos bits
    else negsuc (18_446_744_073_709_551_615 - bits)

-- `time.Duration(1<<uint(attempt)) * time.Second`: the shift and the product keep 64 bits.
unfoldable pub shifted : ℕ → ℤ
shifted attempt = to_int64 (2 ^ attempt % 2 ^ 64 * second % 2 ^ 64)

-- A duration in nanoseconds, as every `time.Duration`.
unfoldable pub retry_backoff : ℤ → ℤ
retry_backoff attempt =
    let d = shifted (if ltb_ℤ attempt (pos 1) then 1 else pos_part attempt) in
    if ltb_ℤ (pos (60 * second)) d then pos (60 * second) else d

-- `retries + 1` on an `int32`.
unfoldable pub next_retries : ℤ → ℤ
next_retries (pos n) = if n == 2_147_483_647 then negsuc 2_147_483_647 else pos (n + 1)
next_retries (negsuc zero) = pos 0
next_retries (negsuc (suc n)) = negsuc n

-- `t.Add(d)`, for a sum that is not before Go's zero time.
unfoldable pub add_duration : Instant → ℤ → Instant
add_duration t (pos d) = t + d
add_duration t (negsuc d) = t - suc d
