-- ===== src/Gestation/Growth/Kept.antt =====
-- What a trajectory keeps.
use kyvernetria.Gestation.Growth.{Sample, append_sample, max_samples}
use kyvernetria.Prelude.{
  ℕ, zero, suc, ◌-◌, ◌≤◌, ◌≡◌, refl, sym, ap, subst, ◌∙◌, List, [], ◌∷◌, ◌++◌, arith, length, ltb,
  drop, get_last?, some, length-append, length-drop, get_last?-append, Bool-cases, inl, inr,
}

drop-snoc :
    (n : ℕ) (xs : List Sample) (s : Sample)
    → n ≤ length xs
    → drop n (xs ++ s ∷ []) ≡ drop n xs ++ s ∷ []
drop-snoc zero xs s h = refl
drop-snoc (suc n) [] s h = absurd (omega (arith, h))
drop-snoc (suc n) (x ∷ xs) s h = drop-snoc n xs s (omega (arith, h))

append_sample-drop :
    (samples : List Sample) (s : Sample)
    → append_sample samples s ≡ drop (suc (length samples) - max_samples) samples ++ s ∷ []
unfolding append_sample
append_sample-drop samples s =
    let size : length (samples ++ s ∷ []) ≡ suc (length samples) =
      omega (arith, length-append samples (s ∷ [])) in
    elim (Bool-cases (ltb max_samples (length (samples ++ s ∷ [])))) [
      | inl large ↦ rw large (
          ap (λ n. drop (n - max_samples) (samples ++ s ∷ [])) size
          ∙ drop-snoc (suc (length samples) - max_samples) samples s (omega arith))
      | inr small ↦ rw small (
          ap (λ n. drop n samples ++ s ∷ [])
            (let e : 0 ≡ suc (length samples) - max_samples = ground (arith, small, size) in e))
    ]

-- A trajectory keeps 336 measurements at most, the newest among them, and of the older ones the newest.
append_sample-kept :
    (samples : List Sample) (s : Sample)
    → (length (append_sample samples s) ≤ max_samples)
      × (get_last? (append_sample samples s) ≡ some s)
      × (append_sample samples s ≡ drop (suc (length samples) - max_samples) samples ++ s ∷ [])
append_sample-kept samples s =
    let e = append_sample-drop samples s in
    let older = drop (suc (length samples) - max_samples) samples in
    (
      subst (λ all. length all ≤ max_samples) (sym e)
          (omega (
            arith,
            length-append older (s ∷ []),
            length-drop (suc (length samples) - max_samples) samples,
          )),
      ap get_last? e ∙ get_last?-append older s,
      e,
    )
