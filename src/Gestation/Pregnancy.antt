-- ===== src/Gestation/Pregnancy.antt =====
-- gestation/pregnancy.go: trimesters, and how much room each of them reserves. Times are nanoseconds
-- before or after 1970.
pub mod Room
use kyvernetria.Prelude.Int.{
  ℤ, pos, negsuc, pos_part, ◌+ℤ◌, ◌-ℤ◌, ◌*ℤ◌, ltb_ℤ, leb_ℤ, eqb_ℤ, wrap32, wrap64, quot,
}
use kyvernetria.Prelude.{ℕ, Bool, true, false, not, ltb, leb, if◌then◌else◌}

-- A difference of times stops at the smallest and the largest duration.
abbrev pub saturate : ℤ → ℤ
saturate (pos n) = if ltb 9223372036854775807 n then pos 9223372036854775807 else pos n
saturate (negsuc n) = if ltb 9223372036854775807 n then negsuc 9223372036854775807 else negsuc n

unfoldable pub sub_time : ℤ → ℤ → ℤ
unfolding ◌-ℤ◌
sub_time a b = saturate (a -ℤ b)

abbrev pub at_most_three : ℤ → ℤ
at_most_three t = if ltb_ℤ (pos 3) t then pos 3 else t

-- The trimester of a service that is this far in its plan; both are in range.
unfoldable pub third : ℤ → ℤ → ℤ
unfolding ◌+ℤ◌ ◌*ℤ◌
third elapsed total =
    at_most_three (wrap32 (pos 1 +ℤ wrap32 (quot (wrap64 (pos 3 *ℤ elapsed)) (pos_part total))))

unfoldable pub trimester : ℤ → ℤ → ℤ → ℤ
trimester conceived due now =
    if not (ltb_ℤ now due)
    then pos 0
    else (let total = sub_time due conceived in
        let elapsed = sub_time now conceived in
        if leb_ℤ total (pos 0)
        then pos 3
        else (if ltb_ℤ elapsed (pos 0) then pos 1 else third elapsed total))

-- Placeholder pods in a trimester, for an int32 number of replicas.
unfoldable pub reserved : ℤ → ℤ → ℤ
unfolding ◌+ℤ◌ ◌*ℤ◌
reserved tri replicas =
    let term = wrap32 (replicas +ℤ pos 1) in
    if eqb_ℤ tri (pos 1)
    then quot (wrap32 (term +ℤ pos 3)) 4
    else (if eqb_ℤ tri (pos 2) then quot (wrap32 (wrap32 (pos 2 *ℤ term) +ℤ pos 2)) 3 else term)
