-- ===== src/Clock.antt =====
-- The `time` package. A `time.Time` is the number of nanoseconds since the Unix epoch, and a
-- `time.Duration` a 64-bit number of nanoseconds.
use burnafter.Prelude.{ℕ, ◌-◌, ◌^◌, ◌≡◌, Bool, arith, if◌then◌else◌}
use burnafter.Int.{ℤ, pos, negsuc, ◌+ℤ◌, ◌-ℤ◌, ◌*ℤ◌, ltb_ℤ, wrap64, floor_div}

abbrev pub Time : Type 0
Time = ℤ

abbrev pub Duration : Type 0
Duration = ℤ

-- The readings of `time.Now()` in one call, in order.
abbrev pub Readings : Type 0
Readings = ℕ → Time

abbrev pub second : ℕ
second = 1_000_000_000

-- `time.Duration(n) * time.Second`, a product of 64-bit integers
unfoldable pub seconds : ℤ → Duration
seconds n = wrap64 (n *ℤ second)

-- `t.Add(d)`
unfoldable pub add : Time → Duration → Time
add t d = t +ℤ d

abbrev pub clamp64 : ℤ → Duration
clamp64 d =
    if ltb_ℤ (pos (2 ^ 63 - 1)) d
    then pos (2 ^ 63 - 1)
    else if ltb_ℤ d (negsuc (2 ^ 63 - 1))
    then negsuc (2 ^ 63 - 1)
    else d

-- `time.Since(t)` at the reading `now`: a difference that does not fit is the nearest that does.
unfoldable pub since : (now t : Time) → Duration
since now t = clamp64 (now -ℤ t)

-- `t.After(u)`
abbrev pub after : (t u : Time) → Bool
after t u = ltb_ℤ u t

-- `t.Unix()`, and `time.Unix(secs, 0)`
unfoldable pub unix : Time → ℤ
unix t = floor_div t second

unfoldable pub from_unix : ℤ → Time
from_unix secs = secs *ℤ second

pub unix-from_unix : (secs : ℤ) → unix (from_unix secs) ≡ secs
unfolding unix from_unix floor_div ◌*ℤ◌
unix-from_unix (pos n) = ground arith
unix-from_unix (negsuc n) = ground arith
