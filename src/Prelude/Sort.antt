-- ===== src/Prelude/Sort.antt =====
-- Go's sort, as an insertion by a Boolean order, and what it keeps.
use Prim.Native.Nat.{suc}
use mathlib.Core.Path.{◌≡◌, refl, ap, subst, ◌∙◌}
use mathlib.Core.Bool.{Bool, true, false, ◌||◌}
use mathlib.Core.List.{List, [], ◌∷◌}
use native.Mathlib.Omega.{arith}
use kyvernetria.Prelude.Lists.{length, any, All, All-mono}
use mathlib.Core.Logic.{inl, inr}
use kyvernetria.Prelude.Tests.{Bool-cases}

module _ {ℓ} {A : Type ℓ} (less : A → A → Bool) where
  unfoldable pub insert_by : A → List A → List A
  insert_by x [] = x ∷ []
  insert_by x (y ∷ ys) = elim (less y x) [ true ↦ y ∷ insert_by x ys | false ↦ x ∷ y ∷ ys ]

  unfoldable pub sort_by : List A → List A
  unfolding insert_by
  sort_by [] = []
  sort_by (x ∷ xs) = insert_by x (sort_by xs)

  any-insert_by : (p : A → Bool) (x : A) (ys : List A) → any p (insert_by x ys) ≡ (p x || any p ys)
  unfolding insert_by
  any-insert_by p x [] = refl
  any-insert_by p x (y ∷ ys) = ground (arith, any-insert_by p x ys)

  pub any-sort_by : (p : A → Bool) (xs : List A) → any p (sort_by xs) ≡ any p xs
  unfolding sort_by
  any-sort_by p [] = refl
  any-sort_by p (x ∷ xs) = any-insert_by p x (sort_by xs) ∙ ap (λ b. p x || b) (any-sort_by p xs)

  length-insert_by : (x : A) (ys : List A) → length (insert_by x ys) ≡ suc (length ys)
  unfolding insert_by
  length-insert_by x [] = refl
  length-insert_by x (y ∷ ys) = ground (arith, length-insert_by x ys)

  pub length-sort_by : (xs : List A) → length (sort_by xs) ≡ length xs
  unfolding sort_by
  length-sort_by [] = refl
  length-sort_by (x ∷ xs) = length-insert_by x (sort_by xs) ∙ ap suc (length-sort_by xs)

  pub All-insert_by {κ} :
      (P : A → Type κ) (x : A) (ys : List A) → P x → All P ys → All P (insert_by x ys)
  unfolding insert_by
  All-insert_by P x [] h hs = (h, tt)
  All-insert_by P x (y ∷ ys) h hs =
      elim (less y x) as (λ b. All P (elim b [ true ↦ y ∷ insert_by x ys | false ↦ x ∷ y ∷ ys ])) [
        | true ↦ (hs.0, All-insert_by P x ys h hs.1)
        | false ↦ (h, hs)
      ]

  pub All-sort_by {κ} : (P : A → Type κ) (xs : List A) → All P xs → All P (sort_by xs)
  unfolding sort_by
  All-sort_by P [] h = tt
  All-sort_by P (x ∷ xs) h = All-insert_by P x (sort_by xs) h.0 (All-sort_by P xs h.1)

  pub All-insert_by_inv {κ} :
      (P : A → Type κ) (x : A) (ys : List A) → All P (insert_by x ys) → P x × All P ys
  unfolding insert_by
  All-insert_by_inv P x [] h = h
  All-insert_by_inv P x (y ∷ ys) h = elim (Bool-cases (less y x)) [
    | inl e ↦
        let k = subst (All P) (insert_by-later x y ys e) h in
        let (p, ps) = All-insert_by_inv P x ys k.1 in (p, (k.0, ps))
    | inr e ↦ subst (All P) (insert_by-now x y ys e) h
  ]
    where
      insert_by-later :
          (x y : A) (ys : List A) → less y x ≡ true → insert_by x (y ∷ ys) ≡ y ∷ insert_by x ys
      insert_by-later x y ys e = rw (e, insert_by) refl

      insert_by-now : (x y : A) (ys : List A) → less y x ≡ false → insert_by x (y ∷ ys) ≡ x ∷ y ∷ ys
      insert_by-now x y ys e = rw (e, insert_by) refl

  pub All-sort_by_inv {κ} : (P : A → Type κ) (xs : List A) → All P (sort_by xs) → All P xs
  unfolding sort_by
  All-sort_by_inv P [] h = tt
  All-sort_by_inv P (x ∷ xs) h =
      let (p, ps) = All-insert_by_inv P x (sort_by xs) h in (p, All-sort_by_inv P xs ps)

  -- No element goes before one that stands in front of it.
  abbrev pub Sorted : List A → Type 0
  Sorted [] = Unit
  Sorted (x ∷ xs) = All (λ y. less y x ≡ false) xs × Sorted xs

  module _ (asym : (a b : A) → less a b ≡ true → less b a ≡ false)
      (trans : (a b c : A) → less b a ≡ false → less c b ≡ false → less c a ≡ false) where
    insert_by-Sorted : (x : A) (ys : List A) → Sorted ys → Sorted (insert_by x ys)
    unfolding insert_by
    insert_by-Sorted x [] h = (tt, tt)
    insert_by-Sorted x (y ∷ ys) h = insert_by-Sorted_at (less y x) refl (insert_by-Sorted x ys h.1)
      where
        insert_by-Sorted_at :
            (b : Bool)
            → less y x ≡ b
            → Sorted (insert_by x ys)
            → Sorted (elim b [ true ↦ y ∷ insert_by x ys | false ↦ x ∷ y ∷ ys ])
        insert_by-Sorted_at true e k =
            (All-insert_by (λ z. less z y ≡ false) x ys (asym y x e) h.0, k)
        insert_by-Sorted_at false e k = (
          (e, All-mono (λ z. less z y ≡ false) (λ z. less z x ≡ false) ys (λ z. trans x y z e) h.0),
          h,
        )

    pub sort_by-Sorted : (xs : List A) → Sorted (sort_by xs)
    unfolding sort_by
    sort_by-Sorted [] = tt
    sort_by-Sorted (x ∷ xs) = insert_by-Sorted x (sort_by xs) (sort_by-Sorted xs)
