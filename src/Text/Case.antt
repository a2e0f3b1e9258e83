-- ===== src/Text/Case.antt =====
-- strings.ToUpper and strings.ToLower; `wide` maps what is not ASCII.
use kyvernetria.Text.{Text}
use kyvernetria.Prelude.{ℕ, ◌+◌, ◌-◌, ◌&&◌, [], ◌∷◌, leb, ltb, if◌then◌else◌}

unfoldable pub to_upper : (ℕ → ℕ) → Text → Text
to_upper wide [] = []
to_upper wide (c ∷ s) =
    (if leb 97 c && leb c 122 then c - 32 else (if ltb c 128 then c else wide c)) ∷ to_upper wide s

unfoldable pub to_lower : (ℕ → ℕ) → Text → Text
to_lower wide [] = []
to_lower wide (c ∷ s) =
    (if leb 65 c && leb c 90 then c + 32 else (if ltb c 128 then c else wide c)) ∷ to_lower wide s
