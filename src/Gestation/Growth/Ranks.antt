-- ===== src/Gestation/Growth/Ranks.antt =====
-- What a percentile of a service's own history is.
use kyvernetria.Gestation.Growth.Exact.{
  rank-bounds, IsCharted, p3-IsCharted, p15-IsCharted, p50-IsCharted, p85-IsCharted, p97-IsCharted,
}
use kyvernetria.Gestation.Growth.{bands_of, max_samples, at_index, rank, percentile, sorted}
use kyvernetria.Prelude.Int.{ℤ, ltb_ℤ}
use kyvernetria.Prelude.Sort.{sort_by, insert_by, Sorted, sort_by-Sorted, length-sort_by}
use kyvernetria.Prelude.{
  count, ℕ, zero, suc, ◌-◌, ◌*◌, ◌≤◌, ◌<◌, ◌≡◌, refl, sym, subst, ◌∙◌, Bool, true, false, not, List,
  [], ◌∷◌, arith, length, All,
}

ltb_ℤ_asym : (a b : ℤ) → ltb_ℤ a b ≡ true → ltb_ℤ b a ≡ false
ltb_ℤ_asym a b h = ground (arith, h)

ltb_ℤ_trans : (a b c : ℤ) → ltb_ℤ b a ≡ false → ltb_ℤ c b ≡ false → ltb_ℤ c a ≡ false
ltb_ℤ_trans a b c h k = ground (arith, h, k)

count-insert_by :
    (p : ℤ → Bool) (x : ℤ) (ys : List ℤ) → count p (insert_by ltb_ℤ x ys) ≡ count p (x ∷ ys)
unfolding insert_by
count-insert_by p x [] = refl
count-insert_by p x (y ∷ ys) = ground (arith, count-insert_by p x ys)

count-sort_by : (p : ℤ → Bool) (xs : List ℤ) → count p (sort_by ltb_ℤ xs) ≡ count p xs
unfolding sort_by
count-sort_by p [] = refl
count-sort_by p (x ∷ xs) =
    count-insert_by p x (sort_by ltb_ℤ xs) ∙ ground (arith, count-sort_by p xs)

-- Not below any element of a list: none of them is above it.
count_none : (v : ℤ) (xs : List ℤ) → All (λ y. ltb_ℤ y v ≡ false) xs → count (λ x. ltb_ℤ x v) xs ≡ 0
count_none v [] h = refl
count_none v (x ∷ xs) h = ground (arith, h, count_none v xs h.1)

All-at_index :
    (v : ℤ) (xs : List ℤ) (i : ℕ)
    → i < length xs
    → All (λ y. ltb_ℤ y v ≡ false) xs
    → ltb_ℤ (at_index xs i) v ≡ false
All-at_index v [] i h a = absurd (omega (arith, h))
All-at_index v (x ∷ xs) zero h a = a.0
All-at_index v (x ∷ xs) (suc i) h a = All-at_index v xs i (omega (arith, h)) a.1

-- An element of a sorted list: enough are not above it, and not too many are below.
Sorted-at_index :
    (xs : List ℤ) (i : ℕ)
    → Sorted ltb_ℤ xs
    → i < length xs
    → (suc i ≤ count (λ x. not (ltb_ℤ (at_index xs i) x)) xs)
      × (count (λ x. ltb_ℤ x (at_index xs i)) xs ≤ i)
Sorted-at_index [] i s h = absurd (omega (arith, h))
Sorted-at_index (x ∷ xs) zero s h = ground (arith, count_none x xs s.0)
Sorted-at_index (x ∷ xs) (suc i) s h =
    ground (
      arith,
      Sorted-at_index xs i s.1 (omega (arith, h)),
      All-at_index x xs i (omega (arith, h)) s.0,
    )

percentile-at_index :
    (xs : List ℤ) (p : ℕ) → 1 ≤ length xs → percentile xs p ≡ at_index xs (rank p (length xs) - 1)
unfolding percentile
percentile-at_index [] p h = absurd (omega (arith, h))
percentile-at_index (x ∷ xs) p h = refl

-- v is a p-th percentile of a history by its rank.
abbrev pub IsPercentile : ℕ → List ℤ → ℤ → Type 0
IsPercentile p history v =
    (p * length history ≤ 100 * count (λ x. not (ltb_ℤ v x)) history)
    × (100 * count (λ x. ltb_ℤ x v) history < p * length history)

Sorted-IsPercentile :
    (xs : List ℤ) (p : ℕ)
    → Sorted ltb_ℤ xs
    → 1 ≤ length xs
    → length xs ≤ max_samples
    → 1 ≤ p
    → p ≤ 100
    → IsCharted p
    → IsPercentile p xs (at_index xs (rank p (length xs) - 1))
Sorted-IsPercentile xs p s full most lo hi charted =
    let r = rank p (length xs) in
    let (one, within, above, below) = rank-bounds p (length xs) lo hi charted full most in
    let (enough, few) = Sorted-at_index xs (r - 1) s (omega (arith, one, within)) in
    (omega (arith, enough, one, above), omega (arith, few, below))

percentile-IsPercentile :
    (history : List ℤ) (p : ℕ)
    → 1 ≤ length history
    → length history ≤ max_samples
    → 1 ≤ p
    → p ≤ 100
    → IsCharted p
    → IsPercentile p history (percentile (sorted history) p)
percentile-IsPercentile history p full most lo hi charted =
    let xs = sorted history in
    let same = length-sort_by ltb_ℤ history in
    let full2 : 1 ≤ length xs = omega (arith, same, full) in
    let most2 : length xs ≤ max_samples = omega (arith, same, most) in
    let v = percentile xs p in
    let (enough, few) = subst (IsPercentile p xs) (sym (percentile-at_index xs p full2)) (
      Sorted-IsPercentile xs p (sort_by-Sorted ltb_ℤ ltb_ℤ_asym ltb_ℤ_trans history) full2 most2 lo
        hi charted) in
    let c1 = count-sort_by (λ x. not (ltb_ℤ v x)) history in
    let c2 = count-sort_by (λ x. ltb_ℤ x v) history in
    (
      subst (λ n. p * n ≤ 100 * count (λ x. not (ltb_ℤ v x)) history) same
          (subst (λ c. p * length xs ≤ 100 * c) c1 enough),
      subst (λ n. 100 * count (λ x. ltb_ℤ x v) history < p * n) same
          (subst (λ c. 100 * c < p * length xs) c2 few),
    )

-- The bands of a trajectory of 1 to 336 measurements are its percentiles by the nearest rank, for all the
-- rounding of float64: at least p% of the history is not above the band of p, and less than p% is below it.
pub bands_of-IsPercentile :
    (history : List ℤ)
    → 1 ≤ length history
    → length history ≤ max_samples
    → IsPercentile 3 history (bands_of history).p3
      × IsPercentile 15 history (bands_of history).p15
      × IsPercentile 50 history (bands_of history).p50
      × IsPercentile 85 history (bands_of history).p85
      × IsPercentile 97 history (bands_of history).p97
unfolding bands_of
bands_of-IsPercentile history full most = (
  percentile-IsPercentile history 3 full most (omega arith) (omega arith) p3-IsCharted,
  percentile-IsPercentile history 15 full most (omega arith) (omega arith) p15-IsCharted,
  percentile-IsPercentile history 50 full most (omega arith) (omega arith) p50-IsCharted,
  percentile-IsPercentile history 85 full most (omega arith) (omega arith) p85-IsCharted,
  percentile-IsPercentile history 97 full most (omega arith) (omega arith) p97-IsCharted,
)
