-- ===== src/XInactivation/Crash/History.antt =====
-- The crash history: what RecordCrash writes, the next one reads, less what has left the window.
use kyvernetria.XInactivation.Disk.{holds, format_times}
use kyvernetria.XInactivation.Cell.{Cell, in_window, recent, recent_from}
use kyvernetria.Prelude.Int.{pos}
use kyvernetria.Text.{Text}
use kyvernetria.Text.Fields.{fields, fields-word, fields-nil, newline-is_space}
use kyvernetria.Text.Decimal.{format_int, format_nat, format_nat-IsNumeral, parse_int-format_nat}
use kyvernetria.Prelude.{
  ℕ, ◌<◌, ◌≡◌, refl, sym, ap, ◌∙◌, List, [], ◌∷◌, ◌++◌, map, arith, All, keep,
}

-- The texts of timestamps, as the fields of the file give them.
texts : List ℕ → List Text
texts [] = []
texts (s ∷ ss) = format_nat s ∷ texts ss

fields-format_times : (ss : List ℕ) → fields (format_times (map pos ss)) ≡ texts ss
unfolding format_times texts format_int
fields-format_times [] = fields-nil
fields-format_times (s ∷ ss) =
    let (c, w, e, _, word) = format_nat-IsNumeral s in
    ap (λ t. fields (t ++ 10 ∷ format_times (map pos ss))) e
    ∙ fields-word c w 10 (format_times (map pos ss)) word newline-is_space
    ∙ ap (λ t. t ∷ fields (format_times (map pos ss))) (sym e)
    ∙ ap (◌∷◌ (format_nat s)) (fields-format_times ss)

recent_from-texts :
    (c : Cell) (now : ℕ) (ss : List ℕ)
    → All (λ s. s < 9223372036854775808) ss
    → recent_from c now (texts ss) ≡ keep (in_window c now) (map pos ss)
unfolding texts recent_from
recent_from-texts c now [] h = refl
recent_from-texts c now (s ∷ ss) h =
    ground (arith, parse_int-format_nat s h.0, recent_from-texts c now ss h.1)

-- A history of int64 timestamps that RecordCrash wrote reads back in order, without the ones that
-- lie outside the window of the reader.
pub recent-format_times :
    (c : Cell) (now : ℕ) (ss : List ℕ)
    → All (λ s. s < 9223372036854775808) ss
    → recent c (holds (format_times (map pos ss))) now ≡ keep (in_window c now) (map pos ss)
unfolding recent
recent-format_times c now ss h = rw (fields-format_times ss) (recent_from-texts c now ss h)
