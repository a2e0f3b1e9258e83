-- ===== src/Text/Split.antt =====
-- strings.Split and strings.Join on a separator of one code point, and strings.HasPrefix.
use kyvernetria.Prelude.{
  ℕ, ◌≡◌, refl, ap, ◌∙◌, ◌≢◌, Bool, true, false, ◌&&◌, List, [], ◌∷◌, ◌++◌, ◌==◌, arith, All,
  append_assoc, Option, none, some, append-nil,
}

-- `w` is the piece in progress.
unfoldable pub split_from : ℕ → List ℕ → List ℕ → List (List ℕ)
split_from sep w [] = w ∷ []
split_from sep w (c ∷ s) = elim (c == sep) [
  | true ↦ w ∷ split_from sep [] s
  | false ↦ split_from sep (w ++ c ∷ []) s
]

-- A text always has one piece at least: `""` has one, the empty one.
unfoldable pub split : ℕ → List ℕ → List (List ℕ)
unfolding split_from
split sep s = split_from sep [] s

unfoldable pub join : ℕ → List (List ℕ) → List ℕ
join sep [] = []
join sep (p ∷ []) = p
join sep (p ∷ q ∷ ps) = p ++ sep ∷ join sep (q ∷ ps)

unfoldable pub has_prefix : List ℕ → List ℕ → Bool
has_prefix s [] = true
has_prefix [] (c ∷ p) = false
has_prefix (d ∷ s) (c ∷ p) = d == c && has_prefix s p

-- The separator does not occur.
abbrev pub Lacks : ℕ → List ℕ → Type 0
Lacks sep = All (λ c. c ≢ sep)

split_from-piece :
    (sep : ℕ) (w p rest : List ℕ)
    → Lacks sep p
    → split_from sep w (p ++ sep ∷ rest) ≡ (w ++ p) ∷ split_from sep [] rest
unfolding split_from
split_from-piece sep w [] rest h = rw append-nil (ground arith)
split_from-piece sep w (c ∷ p) rest h =
    ground (arith, split_from-piece sep (w ++ c ∷ []) p rest h.1, append_assoc w (c ∷ []) p, h.0)

split_from-last : (sep : ℕ) (w p : List ℕ) → Lacks sep p → split_from sep w p ≡ (w ++ p) ∷ []
unfolding split_from
split_from-last sep w [] h = rw append-nil
split_from-last sep w (c ∷ p) h =
    ground (arith, split_from-last sep (w ++ c ∷ []) p h.1, append_assoc w (c ∷ []) p, h.0)

-- Pieces without the separator survive a join and a split.
pub split-join :
    (sep : ℕ) (p : List ℕ) (ps : List (List ℕ))
    → All (Lacks sep) (p ∷ ps)
    → split sep (join sep (p ∷ ps)) ≡ p ∷ ps
unfolding split join
split-join sep p [] h = split_from-last sep [] p h.0
split-join sep p (q ∷ ps) h =
    split_from-piece sep [] p (join sep (q ∷ ps)) h.0 ∙ ap (◌∷◌ p) (split-join sep q ps h.1)

pub has_prefix-append : (p s : List ℕ) → has_prefix (p ++ s) p ≡ true
unfolding has_prefix
has_prefix-append [] s = refl
has_prefix-append (c ∷ p) s = ground (arith, has_prefix-append p s)

-- strings.Cut at the first separator.
unfoldable pub cut : ℕ → List ℕ → Option (List ℕ × List ℕ)
cut sep [] = none
cut sep (c ∷ s) = elim (c == sep) [
  | true ↦ some ([], s)
  | false ↦ elim (cut sep s) [ none ↦ none | some (a, b) ↦ some (c ∷ a, b) ]
]

pub cut-append : (sep : ℕ) (a b : List ℕ) → Lacks sep a → cut sep (a ++ sep ∷ b) ≡ some (a, b)
unfolding cut
cut-append sep [] b h = ground arith
cut-append sep (c ∷ a) b h = ground (arith, cut-append sep a b h.1, h.0)
