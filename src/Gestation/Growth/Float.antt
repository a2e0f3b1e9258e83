-- ===== src/Gestation/Growth/Float.antt =====
-- kubernetes/overlay/pkg/kyvernetria/gestation/growth.go: what percentile computes in float64. A number is a
-- whole number of 53 bits over a power of two, and each result is rounded to the nearest, a tie to the even one.
use kyvernetria.Prelude.{ℕ, zero, suc, ◌+◌, ◌-◌, ◌*◌, ◌/◌, ◌%◌, ◌^◌, ltb, if◌then◌else◌}

-- a / b, rounded to a whole number.
unfoldable pub half_even : ℕ → ℕ → ℕ
half_even a b =
    let q = a / b in
    if ltb (2 * (a % b)) b then q else (if ltb b (2 * (a % b)) then q + 1 else q + q % 2)

-- The power of two over which a percentage between 1% and 100% has 53 bits: 52 at least, 59 at most.
unfoldable pub scale : ℕ → ℕ → ℕ → ℕ
scale zero p k = k
scale (suc fuel) p k =
    let more = scale fuel p (suc k) in if ltb (p * 2 ^ k) (100 * 2 ^ 52) then more else k

unfoldable pub scale_of : ℕ → ℕ
unfolding scale
scale_of p = scale 8 p 52

-- How many bits a product has beyond 53; 64 is enough for a length that fits an int.
unfoldable pub excess : ℕ → ℕ → ℕ
excess zero a = zero
excess (suc fuel) a = let more = excess fuel (a / 2) in if ltb a (2 ^ 53) then zero else suc more

-- math.Ceil(p / 100 * float64(n)), for p from 1 to 100.
unfoldable pub ceil_product : ℕ → ℕ → ℕ
unfolding half_even scale_of excess
ceil_product p n =
    let k = scale_of p in
    let a = half_even (p * 2 ^ k) 100 * n in
    let e = excess 64 a in (half_even a (2 ^ e) * 2 ^ e + 2 ^ k - 1) / 2 ^ k
