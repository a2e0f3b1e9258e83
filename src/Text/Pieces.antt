-- ===== src/Text/Pieces.antt =====
-- What the code uses of strings.Index, LastIndexByte, IndexAny, TrimSuffix, Contains and FieldsFunc.
use kyvernetria.Text.{Text, text_eq}
use kyvernetria.Text.Split.{Lacks, has_prefix}
use kyvernetria.Text.Fields.{emit}
use kyvernetria.Prelude.{
  ℕ, ◌≡◌, refl, Bool, true, false, List, [], ◌∷◌, ◌++◌, Option, none, some, ◌==◌, any, length, drop,
  if◌then◌else◌, arith,
}

-- What follows the first occurrence of a text, and what precedes it: strings.Index and a slice.
unfoldable pub after_text : Text → Text → Option Text
unfolding has_prefix
after_text p [] = none
after_text p (c ∷ s) = elim (has_prefix (c ∷ s) p) [
  | true ↦ some (drop (length p) (c ∷ s))
  | false ↦ after_text p s
]

abbrev pub cons_some : ℕ → Option Text → Option Text
cons_some c none = none
cons_some c (some s) = some (c ∷ s)

unfoldable pub before_text : Text → Text → Option Text
unfolding has_prefix
before_text p [] = none
before_text p (c ∷ s) = elim (has_prefix (c ∷ s) p) [
  | true ↦ some []
  | false ↦ cons_some c (before_text p s)
]

-- What follows the last occurrence of a code point.
unfoldable pub after_last : ℕ → Text → Option Text
after_last d [] = none
after_last d (c ∷ s) = elim (after_last d s) [
  | some t ↦ some t
  | none ↦ if c == d then some s else none
]

-- strings.TrimSuffix.
unfoldable pub trim_suffix : Text → Text → Text
trim_suffix p [] = []
trim_suffix p (c ∷ s) = elim (text_eq (c ∷ s) p) [ true ↦ [] | false ↦ c ∷ trim_suffix p s ]

unfoldable pub occurs : ℕ → Text → Bool
occurs d s = any (λ c. c == d) s

-- What stands in front of the first of some code points.
unfoldable pub before_any : List ℕ → Text → Text
before_any ds [] = []
before_any ds (c ∷ s) = elim (any (λ d. c == d) ds) [ true ↦ [] | false ↦ c ∷ before_any ds s ]

-- strings.FieldsFunc; `w` is the word in progress.
unfoldable pub fields_by : (ℕ → Bool) → Text → Text → List Text
fields_by sep w [] = emit w []
fields_by sep w (c ∷ s) = elim (sep c) [
  | true ↦ emit w (fields_by sep [] s)
  | false ↦ fields_by sep (w ++ c ∷ []) s
]

-- strings.HasSuffix.
unfoldable pub has_suffix : Text → Text → Bool
has_suffix p [] = text_eq [] p
has_suffix p (c ∷ s) = if text_eq (c ∷ s) p then true else has_suffix p s

pub after_last-none : (sep : ℕ) (s : Text) → Lacks sep s → after_last sep s ≡ none
unfolding after_last
after_last-none sep [] h = refl
after_last-none sep (c ∷ s) h = rw (after_last-none sep s h.1) (ground (arith, h.0))

-- The last separator is the one that nothing after it repeats.
pub after_last-append :
    (sep : ℕ) (p t : Text) → Lacks sep t → after_last sep (p ++ sep ∷ t) ≡ some t
unfolding after_last
after_last-append sep [] t h = rw (after_last-none sep t h) (ground arith)
after_last-append sep (c ∷ p) t h = rw (after_last-append sep p t h) refl
