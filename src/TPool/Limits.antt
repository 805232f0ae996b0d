-- ===== src/TPool/Limits.antt =====
-- The time limit of the timed wait: when its nanoseconds are in the range that the wait accepts.
use disco_c.Prelude.{ℕ, ◌<◌, ◌≢◌, ◌↔◌, arith}
use disco_c.Prelude.Int.{ℤ, pos, ◌≤ℤ◌, ◌<ℤ◌, ◌+ℤ◌, ◌-ℤ◌, ◌*ℤ◌}
use disco_c.TPool.{Timespec, to_timespec}

-- 0 ≤ tv_nsec < 10^9.
abbrev pub IsNormal : Timespec → Type 0
IsNormal t = (pos 0 ≤ℤ t.tv_nsec) × (t.tv_nsec <ℤ pos 1_000_000_000)

-- For microseconds from 0 up to two seconds, the nanoseconds of the limit are in range exactly if the
-- microseconds are not one million: the carry is taken above 10^9 and not at 10^9.
to_timespec-IsNormal :
    (sec : ℤ) (u : ℕ)
    → u < 2_000_000
    → IsNormal (to_timespec (record { tv_sec = sec; tv_usec = pos u })) ↔ (u ≢ 1_000_000)
unfolding to_timespec ◌+ℤ◌ ◌-ℤ◌ ◌*ℤ◌
to_timespec-IsNormal sec u h = ((λ n e. ground arith), (λ d. ground arith))
