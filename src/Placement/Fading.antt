-- ===== src/Placement/Fading.antt =====
-- The loop of recallNodes that fades the oldest homes: what it keeps, and when it stops.
use kyvernetria.Placement.{fade, member}
use kyvernetria.Text.{Text, text_eq_iff}
use kyvernetria.Prelude.{
  ℕ, zero, suc, ◌+◌, ◌-◌, ◌≡◌, ◌⊎◌, inl, inr, refl, ap, Bool, true, false, List, [], ◌∷◌, arith,
  length, All,
}

abbrev pub Current : (Text → Bool) → List Text → Type 0
Current current = All (λ n. current n ≡ true)

fade-Current :
    (current : Text → Bool) (k : ℕ) (xs : List Text) → Current current xs → fade current k xs ≡ xs
unfolding fade
fade-Current current zero xs h = refl
fade-Current current (suc k) [] h = refl
fade-Current current (suc k) (x ∷ xs) h = ground (arith, h.0, fade-Current current (suc k) xs h.1)

-- Either as many are gone as were too many, or only current ones are left.
pub fade-cases :
    (current : Text → Bool) (k : ℕ) (xs : List Text)
    → (length (fade current k xs) + k ≡ length xs) ⊎ Current current (fade current k xs)
unfolding fade
fade-cases current zero xs = inl (omega arith)
fade-cases current (suc k) [] = inr tt
fade-cases current (suc k) (x ∷ xs) =
    fade-cases_at (current x) refl (fade-cases current k xs) (fade-cases current (suc k) xs)
  where
    fade-cases_at :
        (b : Bool)
        → current x ≡ b
        → (length (fade current k xs) + k ≡ length xs) ⊎ Current current (fade current k xs)
        → (length (fade current (suc k) xs) + suc k ≡ length xs)
          ⊎ Current current (fade current (suc k) xs)
        → (length (elim b [ true ↦ x ∷ fade current (suc k) xs | false ↦ fade current k xs ])
              + suc k
            ≡ suc (length xs))
          ⊎ Current current
              (elim b [ true ↦ x ∷ fade current (suc k) xs | false ↦ fade current k xs ])
    fade-cases_at true e less (inl gone) = inl (omega arith)
    fade-cases_at true e less (inr left) = inr (e, left)
    fade-cases_at false e (inl gone) more = inl (omega arith)
    fade-cases_at false e (inr left) more = inr left

-- Once faded to its size a list does not fade further.
pub fade_again :
    (current : Text → Bool) (most : ℕ) (xs : List Text)
    → fade current
        (length (fade current (length xs - most) xs) - most)
        (fade current (length xs - most) xs)
      ≡ fade current (length xs - most) xs
unfolding fade
fade_again current most xs = elim (fade-cases current (length xs - most) xs) [
  | inr left ↦
      fade-Current current (length (fade current (length xs - most) xs) - most)
        (fade current (length xs - most) xs) left
  | inl gone ↦ fade-none (length (fade current (length xs - most) xs) - most) (omega arith)
]
  where
    fade-none :
        (k : ℕ)
        → k ≡ 0
        → fade current k (fade current (length xs - most) xs) ≡ fade current (length xs - most) xs
    fade-none zero e = refl
    fade-none (suc k) e = absurd (omega arith)

-- A current home is never faded.
pub member-fade :
    (current : Text → Bool) (n : Text) (k : ℕ) (xs : List Text)
    → current n ≡ true
    → member n xs ≡ true
    → member n (fade current k xs) ≡ true
unfolding fade member
member-fade current n zero xs c h = h
member-fade current n (suc k) [] c h = h
member-fade current n (suc k) (x ∷ xs) c h = ground (
  arith,
  text_eq_iff n x,
  member-fade current n k xs c,
  member-fade current n (suc k) xs c,
  ap current,
)

pub All-fade {κ} :
    (P : Text → Type κ) (current : Text → Bool) (k : ℕ) (xs : List Text)
    → All P xs
    → All P (fade current k xs)
unfolding fade
All-fade P current zero xs h = h
All-fade P current (suc k) [] h = tt
All-fade P current (suc k) (x ∷ xs) h =
    elim (current x)
      as (λ b. All P (elim b [ true ↦ x ∷ fade current (suc k) xs | false ↦ fade current k xs ])) [
        | true ↦ (h.0, All-fade P current (suc k) xs h.1)
        | false ↦ All-fade P current k xs h.1
      ]
