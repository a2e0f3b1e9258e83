-- ===== src/Gestation/Pregnancy/Room.antt =====
-- The room reserved for a launch grows with time and is whole before the due date.
use kyvernetria.Gestation.Pregnancy.{sub_time, third, trimester, reserved}
use kyvernetria.Prelude.Int.{ℤ, pos, pos_part, ◌≤ℤ◌}
use native.Mathlib.Nat.{le-div_iff_mul-le, mul-div-le, mul_comm}
use native.Mathlib.Decide.{dec_le}
use kyvernetria.Prelude.{ℕ, ◌+◌, ◌-◌, ◌*◌, ◌/◌, ◌≤◌, ◌<◌, ◌≡◌, ◌∙◌, arith}

-- For at most 1000 replicas, which is what the API admits: the first trimester reserves a quarter of the
-- pods at term, the second two thirds, both rounded up, and the third and the time after the due date
-- all of them, which is one more than the replicas. So the room never shrinks as the trimesters pass.
pub reserved_exact :
    (n : ℕ)
    → n ≤ 1000
    → (reserved (pos 1) (pos n) ≡ pos ((n + 4) / 4))
      × (reserved (pos 2) (pos n) ≡ pos ((2 * n + 4) / 3))
      × (reserved (pos 3) (pos n) ≡ pos (n + 1))
      × (reserved (pos 0) (pos n) ≡ pos (n + 1))
      × (reserved (pos 1) (pos n) ≤ℤ reserved (pos 2) (pos n))
      × (reserved (pos 2) (pos n) ≤ℤ reserved (pos 3) (pos n))
unfolding reserved
reserved_exact n h =
    (ground arith, ground arith, ground arith, ground arith, ground arith, ground arith)

sub_time-between :
    (a b : ℕ) → b ≤ a → a - b < 9223372036854775808 → sub_time (pos a) (pos b) ≡ pos (a - b)
unfolding sub_time
sub_time-between a b h k = ground arith

thirds-le : (e t : ℕ) → e < t → 3 * e / t ≤ 2
thirds-le e t h = elim (dec_le 3 (3 * e / t)) [
  | yes p ↦
      absurd (omega (arith, (le-div_iff_mul-le {k = t} {x = 3} {y = 3 * e} (omega arith)).0 p))
  | no p ↦ omega arith
]

div_mono : (a b t : ℕ) → a ≤ b → 0 < t → a / t ≤ b / t
div_mono a b t h k =
    (le-div_iff_mul-le {k = t} {x = a / t} {y = b} k).1
      (omega (arith, mul-div-le a t, mul_comm t (a / t)))

third-between :
    (e t : ℕ) → e < t → 3 * t < 9223372036854775808 → third (pos e) (pos t) ≡ pos (1 + 3 * e / t)
unfolding third
third-between e t h k = ground (arith, thirds-le e t h)

trimester-third :
    (c d now : ℕ)
    → c ≤ now
    → now < d
    → 3 * (d - c) < 9223372036854775808
    → trimester (pos c) (pos d) (pos now) ≡ third (pos (now - c)) (pos (d - c))
unfolding trimester
trimester-third c d now h k l =
    rw (sub_time-between d c (omega arith) (omega arith), sub_time-between now c h (omega arith))
      (ground arith)

-- For a plan of at most 97 years (3 * the plan stays below 2 ^ 63 nanoseconds), the trimester of a
-- time between conception and the due date is the third of the plan that the time lies in.
pub trimester_between :
    (c d now : ℕ)
    → c ≤ now
    → now < d
    → 3 * (d - c) < 9223372036854775808
    → (trimester (pos c) (pos d) (pos now) ≡ pos (1 + 3 * (now - c) / (d - c)))
      × (1 + 3 * (now - c) / (d - c) ≤ 3)
trimester_between c d now h k l = (
  trimester-third c d now h k l ∙ third-between (now - c) (d - c) (omega arith) l,
  omega (arith, thirds-le (now - c) (d - c) (omega arith)),
)

-- From the due date on there is no trimester.
pub trimester_due : (c d now : ℤ) → d ≤ℤ now → trimester c d now ≡ pos 0
unfolding trimester
trimester_due c d now h = ground arith

reserved_at : (n q : ℕ) → n ≤ 1000 → q ≤ 2 → pos_part (reserved (pos (1 + q)) (pos n)) ≤ n + 1
unfolding reserved
reserved_at n q h k = ground arith

reserved-mono :
    (n q r : ℕ)
    → n ≤ 1000
    → q ≤ r
    → r ≤ 2
    → reserved (pos (1 + q)) (pos n) ≤ℤ reserved (pos (1 + r)) (pos n)
unfolding reserved
reserved-mono n q r h k l = ground arith

-- Between conception and the due date of a plan of at most 97 years, for at most 1000 replicas, the reserved
-- room never shrinks as time passes.
pub reserved-trimester_mono :
    (n c d now later : ℕ)
    → n ≤ 1000
    → c ≤ now
    → now ≤ later
    → later < d
    → 3 * (d - c) < 9223372036854775808
    → reserved (trimester (pos c) (pos d) (pos now)) (pos n)
      ≤ℤ reserved (trimester (pos c) (pos d) (pos later)) (pos n)
reserved-trimester_mono n c d now later h k l m small =
    rw
      (
        (trimester_between c d now k (omega arith) small).0,
        (trimester_between c d later (omega arith) m small).0,
      )
      (reserved-mono n (3 * (now - c) / (d - c)) (3 * (later - c) / (d - c)) h
        (div_mono (3 * (now - c)) (3 * (later - c)) (d - c) (omega arith) (omega arith))
        (thirds-le (later - c) (d - c) (omega arith)))
