-- ===== src/Kyvctl/Mosaic.antt =====
-- kubernetes/overlay/pkg/kyvernetria/kyvctl/mosaic.go: Alleles, which tells the allele of each node from the
-- versions of all. The parser of versions is an argument, `none` for a version that cannot be parsed.
pub mod Exact
mod Examples
use kyvernetria.XInactivation.Disk.{Allele, xm, xp}
use kyvernetria.Text.{Text}
use kyvernetria.Prelude.{
  ℕ, Bool, true, false, ◌&&◌, ◌||◌, List, [], ◌∷◌, map, Option, none, some, ◌==◌, ltb, any, length,
  if◌then◌else◌,
}

-- The major and the minor of a version.
abbrev pub Minor : Type 0
Minor = ℕ × ℕ

abbrev pub minor_eq : Minor → Minor → Bool
minor_eq (a, b) (c, d) = (a == c) && (b == d)

-- The first is newer than the second.
abbrev pub newer : Minor → Minor → Bool
newer (a, b) (c, d) = ltb c a || ((a == c) && ltb d b)

-- The loop over the versions: the newest minor so far, and the minors that are seen.
unfoldable pub newest_of : List (Option Minor) → Minor → Minor
newest_of [] n = n
newest_of (none ∷ ps) n = newest_of ps n
newest_of (some m ∷ ps) n = newest_of ps (if newer m n then m else n)

abbrev pub add_minor : Minor → List Minor → List Minor
add_minor m seen = if any (minor_eq m) seen then seen else m ∷ seen

unfoldable pub seen_of : List (Option Minor) → List Minor → List Minor
seen_of [] seen = seen
seen_of (none ∷ ps) seen = seen_of ps seen
seen_of (some m ∷ ps) seen = seen_of ps (add_minor m seen)

-- `none` is "?".
abbrev pub label : ℕ → Minor → Option Minor → Option Allele
label minors newest none = none
label minors newest (some m) =
    if ltb minors 2 then none else (if minor_eq m newest then some xm else some xp)

-- Alleles, with the number of the minors.
unfoldable pub alleles : (Text → Option Minor) → List Text → List (Option Allele) × ℕ
unfolding newest_of seen_of
alleles minor_of versions =
    let parsed = map minor_of versions in
    let minors = length (seen_of parsed []) in
    (map (label minors (newest_of parsed (0, 0))) parsed, minors)
