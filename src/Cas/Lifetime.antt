-- ===== src/Cas/Lifetime.antt =====
-- storage/cas.go and storage/storage.go: time.Now().Add(time.Duration(ttl) * time.Second).Unix(). The clock
-- is in nanoseconds; the product wraps at 64 bits, and Unix rounds down.
use ocache.Base.{ap, arith, ℕ, ◌%◌, ◌*◌, ◌+◌, ◌/◌, ◌<◌, ◌^◌, ◌≡◌}
use ocache.Base.Int.{negsuc, pos, ℤ, ◌+ℤ◌}
use ocache.Segment.Format.{to_int64}

unfoldable pub unix_seconds : ℤ → ℤ
unix_seconds (pos n) = pos (n / 1_000_000_000)
unix_seconds (negsuc n) = negsuc (n / 1_000_000_000)

unfoldable pub expiry_after : ℕ → ℕ → ℤ
unfolding unix_seconds
expiry_after now ttl = unix_seconds (pos now +ℤ to_int64 (ttl * 1_000_000_000 % 2 ^ 64))

-- A lifetime whose nanoseconds fit an int64.
pub expiry_after_lem :
    (now ttl : ℕ)
    → ttl * 1_000_000_000 < 2 ^ 63
    → expiry_after now ttl ≡ pos (now / 1_000_000_000 + ttl)
unfolding expiry_after unix_seconds ◌+ℤ◌
expiry_after_lem now ttl h =
    let wide : ttl * 1_000_000_000 % 2 ^ 64 ≡ ttl * 1_000_000_000 = omega arith in
    let fits : to_int64 (ttl * 1_000_000_000) ≡ pos (ttl * 1_000_000_000) = ground arith in
    let sum : pos now +ℤ pos (ttl * 1_000_000_000) ≡ pos (now + ttl * 1_000_000_000) =
      ground (arith, ◌+ℤ◌) in
    rw (wide, fits, sum) (ap pos (omega arith))
