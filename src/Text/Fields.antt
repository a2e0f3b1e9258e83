-- ===== src/Text/Fields.antt =====
-- unicode.IsSpace, strings.TrimSpace and strings.Fields.
use mathlib.Core.List.{reverse}
use kyvernetria.Prelude.{
  ℕ, ◌≡◌, refl, ap, ◌∙◌, Bool, true, false, ◌&&◌, ◌||◌, List, [], ◌∷◌, ◌++◌, append_assoc,
  append-nil, leb, ◌==◌, All,
}

unfoldable pub is_space : ℕ → Bool
is_space c =
    (leb 9 c && leb c 13)
    || c == 32
    || c == 0x85
    || c == 0xA0
    || c == 0x1680
    || (leb 0x2000 c && leb c 0x200A)
    || c == 0x2028
    || c == 0x2029
    || c == 0x202F
    || c == 0x205F
    || c == 0x3000

unfoldable pub trim_left : List ℕ → List ℕ
unfolding is_space
trim_left [] = []
trim_left (c ∷ s) = elim (is_space c) [ true ↦ trim_left s | false ↦ c ∷ s ]

unfoldable pub trim_space : List ℕ → List ℕ
unfolding trim_left
trim_space s = reverse (trim_left (reverse (trim_left s)))

-- A word that has been read, unless it is empty.
abbrev pub emit : List ℕ → List (List ℕ) → List (List ℕ)
emit [] rest = rest
emit (c ∷ w) rest = (c ∷ w) ∷ rest

pub fields_from : List ℕ → List ℕ → List (List ℕ)
unfolding is_space
fields_from w [] = emit w []
fields_from w (c ∷ s) = elim (is_space c) [
  | true ↦ emit w (fields_from [] s)
  | false ↦ fields_from (w ++ c ∷ []) s
]

unfoldable pub fields : List ℕ → List (List ℕ)
unfolding fields_from
fields s = fields_from [] s

abbrev pub IsWord : List ℕ → Type 0
IsWord = All (λ c. is_space c ≡ false)

fields_from-word :
    (w s : List ℕ) (sp : ℕ) (rest : List ℕ)
    → IsWord s
    → is_space sp ≡ true
    → fields_from w (s ++ sp ∷ rest) ≡ emit (w ++ s) (fields_from [] rest)
unfolding fields_from
fields_from-word w [] sp rest h e = rw append-nil (rw (e, fields_from))
fields_from-word w (c ∷ s) sp rest h e =
    rw (h.0, fields_from)
      (fields_from-word (w ++ c ∷ []) s sp rest h.1 e
        ∙ ap (λ v. emit v (fields_from [] rest)) (append_assoc w (c ∷ []) s))

-- A word in front of a space is the first field.
pub fields-word :
    (c : ℕ) (s : List ℕ) (sp : ℕ) (rest : List ℕ)
    → IsWord (c ∷ s)
    → is_space sp ≡ true
    → fields ((c ∷ s) ++ sp ∷ rest) ≡ (c ∷ s) ∷ fields rest
unfolding fields
fields-word c s sp rest h e = fields_from-word [] (c ∷ s) sp rest h e

pub fields-nil : fields [] ≡ []
unfolding fields
fields-nil = refl

pub newline-is_space : is_space 10 ≡ true
unfolding is_space
newline-is_space = refl

pub space-is_space : is_space 32 ≡ true
unfolding is_space
space-is_space = refl

fields_test : fields (10 ∷ 49 ∷ 50 ∷ 32 ∷ 32 ∷ 51 ∷ 10 ∷ []) ≡ (49 ∷ 50 ∷ []) ∷ (51 ∷ []) ∷ []
unfolding fields
fields_test = refl

trim_test : trim_space (32 ∷ 88 ∷ 109 ∷ 10 ∷ []) ≡ 88 ∷ 109 ∷ []
unfolding trim_space
trim_test = refl
