-- ===== src/Mpack/Widen.antt =====
-- The conversion of a float to a double in mpack_try_read_double, on bit patterns: IEEE 754
-- binary32 to binary64. A NaN keeps its payload; whether a signalling NaN is made quiet is left to
-- the platform by C.
use callwire.Base.{ℕ, zero, suc, ◌+◌, ◌-◌, ◌*◌, ◌/◌, ◌%◌, ◌^◌, leb, ◌==◌, if◌then◌else◌}

-- The pattern of m * 2 ^ -149 for 0 < m < 2 ^ (k + 1), without the sign.
subnormal : ℕ → ℕ → ℕ
subnormal zero m = 874 * 2 ^ 52
subnormal (suc k) m =
    let smaller = subnormal k m in
    if leb (2 ^ suc k) m
    then (suc k + 874) * 2 ^ 52 + (m - 2 ^ suc k) * 2 ^ (52 - suc k)
    else smaller

unfoldable pub widen : ℕ → ℕ
unfolding subnormal
widen u =
    let sign = u / 2 ^ 31 % 2 * 2 ^ 63 in
    let exponent = u / 2 ^ 23 % 2 ^ 8 in
    let mantissa = u % 2 ^ 23 in
    if exponent == 255
    then sign + 2047 * 2 ^ 52 + mantissa * 2 ^ 29
    else if exponent == 0
    then (if mantissa == 0 then sign else sign + subnormal 22 mantissa)
    else sign + (exponent + 896) * 2 ^ 52 + mantissa * 2 ^ 29
