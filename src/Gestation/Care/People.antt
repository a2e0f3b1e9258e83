-- ===== src/Gestation/Care/People.antt =====
-- Newborn care ends with two people: what counts as two caregivers.
use kyvernetria.Gestation.Care.{
  Annotations, caregivers_of, judge_caregivers, equal_fold, primary_of, secondary_of,
}
use kyvernetria.Text.{Text, text_eq_iff}
use kyvernetria.Prelude.{ℕ, ◌≡◌, ◌≢◌, ◌↔◌, ap, refl, true, false, [], ◌∷◌, arith}

equal_fold_refl : (wide : ℕ → ℕ) (s : Text) → equal_fold wide s s ≡ true
unfolding equal_fold
equal_fold_refl wide [] = refl
equal_fold_refl wide (c ∷ s) = ground (arith, equal_fold_refl wide s)

-- Two caregivers are accepted exactly when both names are there after trimming and differ in more
-- than case.
pub caregivers_of-accepted_iff :
    (wide : ℕ → ℕ) (a : Annotations)
    → ((caregivers_of wide a).1.0 ≡ true) ↔ (
        (primary_of a ≢ [])
        × (secondary_of a ≢ [])
        × (equal_fold wide (primary_of a) (secondary_of a) ≡ false))
unfolding caregivers_of judge_caregivers
caregivers_of-accepted_iff wide a = (
  λ h. ground (arith, text_eq_iff (primary_of a) [], text_eq_iff (secondary_of a) []),
  λ h. ground (arith, text_eq_iff (primary_of a) [], text_eq_iff (secondary_of a) []),
)

-- Accepted caregivers are two different people.
pub caregivers_differ :
    (wide : ℕ → ℕ) (a : Annotations)
    → (caregivers_of wide a).1.0 ≡ true
    → primary_of a ≢ secondary_of a
caregivers_differ wide a h e =
    let (_, _, differ) = (caregivers_of-accepted_iff wide a).0 h in
    cc (differ, ap (equal_fold wide (primary_of a)) e, equal_fold_refl wide (primary_of a))
