-- ===== src/Gestation/Growth/Exact.antt =====
-- The ranks that float64 gives for the percentages of the code are exact.
use kyvernetria.Gestation.Growth.Float.{ceil_product, half_even, scale_of, scale, excess}
use kyvernetria.Gestation.Growth.{max_samples, rank}
use kyvernetria.Prelude.{
  ◌==◌, ==_iff, ◌&&◌, ℕ, zero, suc, ◌+◌, ◌-◌, ◌*◌, ◌/◌, ◌≤◌, ◌<◌, ◌≡◌, refl, sym, subst, Bool, true,
  arith, ltb, if◌then◌else◌, Bool-cases, inl, inr,
}

one-mul : (p n : ℕ) → 1 ≤ p → 1 ≤ n → 1 ≤ p * n
one-mul zero n h k = absurd (omega (arith, h))
one-mul (suc p) n h k = ground (arith, k)

mul_le : (p q n : ℕ) → p ≤ q → p * n ≤ q * n
mul_le zero q n h = ground arith
mul_le (suc p) zero n h = absurd (omega (arith, h))
mul_le (suc p) (suc q) n h = ground (arith, mul_le p q n (omega (arith, h)))

rounded-bounds :
    (m n : ℕ)
    → 1 ≤ m
    → m ≤ 100 * n
    → (let r = if ltb ((m + 99) / 100) 1 then 1 else (m + 99) / 100 in
        (1 ≤ r) × (r ≤ n) × (m ≤ 100 * r) × (100 * (r - 1) < m))
rounded-bounds m n lo hi = ground arith

-- p% of n, rounded up without an error.
abbrev exact_rank : ℕ → ℕ → ℕ
exact_rank p n = let r = (p * n + 99) / 100 in if ltb r 1 then 1 else r

-- The float64 rank is exact for each length from 1 to n.
pub exact_upto : ℕ → ℕ → Bool
exact_upto p zero = true
exact_upto p (suc n) = let rest = exact_upto p n in (rank p (suc n) == exact_rank p (suc n)) && rest

rank-exact : (p m n : ℕ) → exact_upto p m ≡ true → 1 ≤ n → n ≤ m → rank p n ≡ exact_rank p n
unfolding exact_upto
rank-exact p zero n h lo hi = absurd (omega (arith, lo, hi))
rank-exact p (suc m) n h lo hi = elim (Bool-cases (n == suc m)) [
  | inl last ↦
      subst (λ k. rank p k ≡ exact_rank p k) (sym ((==_iff n (suc m)).0 last))
        ((==_iff (rank p (suc m)) (exact_rank p (suc m))).0 (ground (arith, h)))
  | inr before ↦ rank-exact p m n (ground (arith, h)) lo (ground (arith, hi, before))
]

-- A percentage whose ranks are exact for the lengths that a trajectory can have.
abbrev pub IsCharted : ℕ → Type 0
IsCharted p = exact_upto p max_samples ≡ true

pub p3-IsCharted : IsCharted 3
unfolding exact_upto rank ceil_product half_even scale_of scale excess
p3-IsCharted = refl

pub p15-IsCharted : IsCharted 15
unfolding exact_upto rank ceil_product half_even scale_of scale excess
p15-IsCharted = refl

pub p50-IsCharted : IsCharted 50
unfolding exact_upto rank ceil_product half_even scale_of scale excess
p50-IsCharted = refl

pub p85-IsCharted : IsCharted 85
unfolding exact_upto rank ceil_product half_even scale_of scale excess
p85-IsCharted = refl

pub p97-IsCharted : IsCharted 97
unfolding exact_upto rank ceil_product half_even scale_of scale excess
p97-IsCharted = refl

exact_rank-bounds :
    (p n : ℕ)
    → 1 ≤ p
    → p ≤ 100
    → 1 ≤ n
    → (1 ≤ exact_rank p n)
      × (exact_rank p n ≤ n)
      × (p * n ≤ 100 * exact_rank p n)
      × (100 * (exact_rank p n - 1) < p * n)
exact_rank-bounds p n lo hi few = rounded-bounds (p * n) n (one-mul p n lo few) (mul_le p 100 n hi)

pub rank-bounds :
    (p n : ℕ)
    → 1 ≤ p
    → p ≤ 100
    → IsCharted p
    → 1 ≤ n
    → n ≤ max_samples
    → (1 ≤ rank p n) × (rank p n ≤ n) × (p * n ≤ 100 * rank p n) × (100 * (rank p n - 1) < p * n)
rank-bounds p n lo hi charted few most =
    subst (λ r. (1 ≤ r) × (r ≤ n) × (p * n ≤ 100 * r) × (100 * (r - 1) < p * n))
      (sym (rank-exact p max_samples n charted few most)) (exact_rank-bounds p n lo hi few)
