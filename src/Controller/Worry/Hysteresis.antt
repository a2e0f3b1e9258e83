-- ===== src/Controller/Worry/Hysteresis.antt =====
-- feel over a sequence of percentages: one event per change, and which changes there are.
use kyvernetria.Text.{Text, text_eq, text_eq_refl, text_eq_iff}
use kyvernetria.Prelude.Int.{ℤ, ◌≤ℤ◌, ◌<ℤ◌, leb_ℤ, ltb_ℤ}
use kyvernetria.Controller.Worry.{
  Worries, has, insert, delete, Event, worried, relieved, feel, worry_threshold, relief_threshold,
}
use kyvernetria.Controller.Worry.Check.{event_list}
use kyvernetria.Prelude.{
  ◌≡◌, refl, ap, ◌∙◌, inl, inr, Bool, true, false, not, ◌&&◌, ◌||◌, Option, none, some, arith,
  Bool-cases, List, [], ◌∷◌, ◌++◌,
}

pub has-insert : (q r : Text) (s : Worries) → has q (insert r s) ≡ (text_eq q r || has q s)
unfolding has insert
has-insert q r s = elim (Bool-cases (text_eq q r)) [
  | inl same ↦ ground (arith, same, ap (λ (x : Text). has x s) ((text_eq_iff q r).0 same))
  | inr other ↦ ground (arith, other)
]

pub has-delete : (q r : Text) (s : Worries) → has q (delete r s) ≡ (not (text_eq r q) && has q s)
unfolding has delete
has-delete q r [] = ground arith
has-delete q r (x ∷ s) = elim (Bool-cases (text_eq q x)) [
  | inl same ↦ ground (arith, same, ap (text_eq r) ((text_eq_iff q x).0 same), has-delete q r s)
  | inr other ↦ ground (arith, other, has-delete q r s)
]

-- What the percentages of a resource do to the worries, in their order.
unfoldable pub feel_all : Text → List ℤ → Worries → Worries × List Event
unfolding feel
feel_all r [] state = (state, [])
feel_all r (pct ∷ pcts) state =
    let felt = feel r pct state in
    let rest = feel_all r pcts felt.0 in (rest.0, event_list felt.1 ++ rest.1)

abbrev pub Alternates : Text → Bool → List Event → Type 0
Alternates r b [] = Unit
Alternates r b (worried q pct ∷ es) =
    (b ≡ false) × (q ≡ r) × (worry_threshold ≤ℤ pct) × Alternates r true es
Alternates r b (relieved q pct ∷ es) =
    (b ≡ true) × (q ≡ r) × (pct <ℤ relief_threshold) × Alternates r false es

-- The last percentage outside of the band decides.
abbrev pub decided : ℤ → Option Bool
decided pct = elim (leb_ℤ worry_threshold pct) [
  | true ↦ some true
  | false ↦ elim (ltb_ℤ pct relief_threshold) [ true ↦ some false | false ↦ none ]
]

abbrev pub last_of : Option Bool → Option Bool → Option Bool
last_of a none = a
last_of a (some b) = some b

abbrev pub last_decided : List ℤ → Option Bool
last_decided [] = none
last_decided (pct ∷ pcts) = last_of (decided pct) (last_decided pcts)

abbrev pub or_before : Bool → Option Bool → Bool
or_before b none = b
or_before b (some c) = c

feel-decided :
    (r : Text) (pct : ℤ) (s : Worries) → has r (feel r pct s).0 ≡ or_before (has r s) (decided pct)
unfolding feel
feel-decided r pct s = ground (arith, has-insert r r s, has-delete r r s, text_eq_refl r)

feel-Alternates :
    (r : Text) (pct : ℤ) (s : Worries) (es : List Event)
    → Alternates r (has r (feel r pct s).0) es
    → Alternates r (has r s) (event_list (feel r pct s).1 ++ es)
unfolding feel
feel-Alternates r pct s es h = ground (arith, h, has-insert r r s, has-delete r r s, text_eq_refl r)

-- Another resource is left alone.
feel-other :
    (q r : Text) (pct : ℤ) (s : Worries) → text_eq r q ≡ false → has q (feel r pct s).0 ≡ has q s
unfolding feel
feel-other q r pct s h =
    ground (arith, h, has-insert q r s, has-delete q r s, (text_eq_iff q r).0, (text_eq_iff r q).1)

feel_all-decided :
    (r : Text) (pcts : List ℤ) (s : Worries)
    → has r (feel_all r pcts s).0 ≡ or_before (has r s) (last_decided pcts)
unfolding feel_all
feel_all-decided r [] s = refl
feel_all-decided r (pct ∷ pcts) s =
    feel_all-decided r pcts (feel r pct s).0
    ∙ ap (λ (b : Bool). or_before b (last_decided pcts)) (feel-decided r pct s)
    ∙ or_before-last (has r s) (decided pct) (last_decided pcts)
  where
    or_before-last :
        (b : Bool) (o p : Option Bool) → or_before (or_before b o) p ≡ or_before b (last_of o p)
    or_before-last b o none = refl
    or_before-last b o (some c) = refl

feel_all-Alternates :
    (r : Text) (pcts : List ℤ) (s : Worries) → Alternates r (has r s) (feel_all r pcts s).1
unfolding feel_all
feel_all-Alternates r [] s = tt
feel_all-Alternates r (pct ∷ pcts) s =
    feel-Alternates r pct s (feel_all r pcts (feel r pct s).0).1
      (feel_all-Alternates r pcts (feel r pct s).0)

-- Over any sequence of percentages the node is worried about a resource as the last percentage of at least
-- 70 or below 65 says, and as before if there is none; the events are warnings at 70 or more and reliefs
-- below 65 in turn, a warning first if the node was not worried.
pub feel_all-hysteresis :
    (r : Text) (pcts : List ℤ) (s : Worries)
    → (has r (feel_all r pcts s).0 ≡ or_before (has r s) (last_decided pcts))
      × Alternates r (has r s) (feel_all r pcts s).1
feel_all-hysteresis r pcts s = (feel_all-decided r pcts s, feel_all-Alternates r pcts s)
