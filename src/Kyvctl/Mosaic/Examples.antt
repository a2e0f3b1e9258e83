-- ===== src/Kyvctl/Mosaic/Examples.antt =====
-- Alleles of a control plane of four nodes, one of which does not answer.
use kyvernetria.XInactivation.Disk.{xm, xp}
use kyvernetria.Kyvctl.Mosaic.{Minor, newest_of, seen_of, alleles}
use kyvernetria.Kyvctl.Mosaic.Exact.{told_minor, alleles-told}
use kyvernetria.Text.{Text, codes, text_eq}
use kyvernetria.Prelude.{◌≡◌, refl, List, [], ◌∷◌, map, Option, none, some, if◌then◌else◌}

abbrev minor_of : Text → Option Minor
minor_of v =
    if text_eq v (codes "v1.37.0")
    then some (1, 37)
    else (if text_eq v (codes "v1.36.2") then some (1, 36) else none)

abbrev answers : List Text
answers = codes "v1.36.2" ∷ codes "v1.37.0" ∷ codes "" ∷ codes "v1.36.2" ∷ []

alleles_test : alleles minor_of answers ≡ (some xp ∷ some xm ∷ none ∷ some xp ∷ [], 2)
unfolding alleles newest_of seen_of
alleles_test = refl

-- With one minor there is no telling.
alleles_alike_test :
    alleles minor_of (codes "v1.37.0" ∷ codes "v1.37.0" ∷ []) ≡ (none ∷ none ∷ [], 1)
unfolding alleles newest_of seen_of
alleles_alike_test = refl

alleles-told_example :
    (alleles minor_of answers).0 ≡ map (told_minor (map minor_of answers)) (map minor_of answers)
alleles-told_example = alleles-told minor_of answers
