-- ===== src/XInactivation/Crash/Times.antt =====
-- The history file of a crash loop: its timestamps lie between the first crash and the last.
use kyvernetria.XInactivation.Disk.{File, absent, holds, format_times}
use kyvernetria.XInactivation.Cell.{Cell, second, age, in_window, recent}
use kyvernetria.XInactivation.Crash.History.{recent-format_times}
use kyvernetria.Prelude.Int.{pos}
use kyvernetria.Prelude.{
  ℕ, suc, ◌-◌, ◌*◌, ◌/◌, ◌<◌, ◌≤◌, ◌≡◌, refl, ap, ◌∙◌, true, List, [], ◌∷◌, ◌++◌, map, arith, All,
  keep, length,
}

-- The times run upwards from lo to hi.
abbrev pub Ascending : ℕ → List ℕ → ℕ → Type 0
Ascending lo [] hi = lo ≤ hi
Ascending lo (t ∷ ts) hi = (lo ≤ t) × Ascending t ts hi

-- The history file of a component, for the timestamps in it.
abbrev pub Records : List ℕ → File → Type 0
Records [] f = f ≡ absent
Records (s ∷ ss) f = f ≡ holds (format_times (map pos (s ∷ ss)))

-- Timestamps of crashes between lo and t.
abbrev pub Between : ℕ → ℕ → List ℕ → Type 0
Between lo t = All λ s. (lo / second ≤ s) × (s * second ≤ t) × (s < 9223372036854775808)

pub in_window-Between :
    (c : Cell) (lo t s : ℕ)
    → lo / second ≤ s
    → s * second ≤ t
    → t - lo / second * second ≤ c.escape_window
    → in_window c t (pos s) ≡ true
unfolding in_window age
in_window-Between c lo t s h k w = ground arith

pub keep-Between :
    (c : Cell) (lo t : ℕ) (ss : List ℕ)
    → Between lo t ss
    → t - lo / second * second ≤ c.escape_window
    → keep (in_window c t) (map pos ss) ≡ map pos ss
keep-Between c lo t [] h w = refl
keep-Between c lo t (s ∷ ss) h w =
    ground (arith, in_window-Between c lo t s, keep-Between c lo t ss h.1 w)

pub Between-int64 :
    (lo t : ℕ) (ss : List ℕ) → Between lo t ss → All (λ s. s < 9223372036854775808) ss
Between-int64 lo t [] h = tt
Between-int64 lo t (s ∷ ss) h = (h.0.2, Between-int64 lo t ss h.1)

pub Between-mono : (lo t u : ℕ) (ss : List ℕ) → t ≤ u → Between lo t ss → Between lo u ss
Between-mono lo t u [] le h = tt
Between-mono lo t u (s ∷ ss) le h = ((h.0.0, omega arith, h.0.2), Between-mono lo t u ss le h.1)

pub Between-snoc :
    (lo t s : ℕ) (ss : List ℕ)
    → Between lo t ss
    → (lo / second ≤ s) × (s * second ≤ t) × (s < 9223372036854775808)
    → Between lo t (ss ++ s ∷ [])
Between-snoc lo t s [] h k = (k, tt)
Between-snoc lo t s (x ∷ ss) h k = (h.0, Between-snoc lo t s ss h.1 k)

pub recent-Records :
    (c : Cell) (lo t : ℕ) (ss : List ℕ) (f : File)
    → Records ss f
    → Between lo t ss
    → t - lo / second * second ≤ c.escape_window
    → recent c f t ≡ map pos ss
recent-Records c lo t [] f r h w = rw r (unfold recent in refl)
recent-Records c lo t (s ∷ ss) f r h w = rw r (
    recent-format_times c t (s ∷ ss) (Between-int64 lo t (s ∷ ss) h)
    ∙ keep-Between c lo t (s ∷ ss) h w)

pub map-snoc : (ss : List ℕ) (s : ℕ) → map pos ss ++ pos s ∷ [] ≡ map pos (ss ++ s ∷ [])
map-snoc [] s = refl
map-snoc (x ∷ ss) s = ap (◌∷◌ (pos x)) (map-snoc ss s)

pub length-map_snoc : (ss : List ℕ) (s : ℕ) → length (map pos (ss ++ s ∷ [])) ≡ suc (length ss)
length-map_snoc [] s = refl
length-map_snoc (x ∷ ss) s = ap suc (length-map_snoc ss s)

pub Records-snoc :
    (ss : List ℕ) (s : ℕ) (f : File)
    → f ≡ holds (format_times (map pos (ss ++ s ∷ [])))
    → Records (ss ++ s ∷ []) f
Records-snoc [] s f e = e
Records-snoc (x ∷ ss) s f e = e

pub Ascending-le : (lo : ℕ) (ts : List ℕ) (hi : ℕ) → Ascending lo ts hi → lo ≤ hi
Ascending-le lo [] hi h = h
Ascending-le lo (t ∷ ts) hi h = omega (arith, h.0, Ascending-le t ts hi h.1)
