-- ===== src/Placement/Points.antt =====
-- The points of a node: what a remembered home is worth, and that a busy one is worth nothing.
use kyvernetria.Text.{Text, text_eq, text_eq_refl, text_eq_iff}
use kyvernetria.Placement.{member, score_at, scores_from, scores}
use kyvernetria.Placement.Schedule.{Points, or_zero, later_or, entry_of, points_at}
use kyvernetria.Prelude.{
  ℕ, ◌+◌, ◌≤◌, ◌≡◌, refl, sym, subst, ◌⊎◌, inl, inr, Bool, true, false, not, ◌&&◌, ◌||◌, Option,
  none, some, arith, Bool-cases, List, [], ◌∷◌,
}

text_eq-sym_false : (n m : Text) → text_eq n m ≡ false → text_eq m n ≡ false
text_eq-sym_false n m h = elim (Bool-cases (text_eq m n)) [
  | inr other ↦ other
  | inl same ↦ absurd (cc (h, (text_eq_iff n m).1 (sym ((text_eq_iff m n).0 same))))
]

score_at-bounds : (i : ℕ) → (50 ≤ score_at i) × (score_at i ≤ 100)
unfolding score_at
score_at-bounds i = ground arith

-- No entry, or one between 50 and 100.
abbrev pub Fair : Bool → Option ℕ → Type 0
Fair b none = b ≡ false
Fair b (some p) = (b ≡ true) × (50 ≤ p) × (p ≤ 100)

later_or-Fair :
    (b : Bool) (i : ℕ) (rest : Option ℕ) → Fair b rest → Fair true (later_or (score_at i) rest)
later_or-Fair b i none h = (refl, (score_at-bounds i).0, (score_at-bounds i).1)
later_or-Fair b i (some p) h = (refl, h.1, h.2)

entry_of-here :
    (node : Text) (p : ℕ) (rest : Points)
    → entry_of node ((node, p) ∷ rest) ≡ later_or p (entry_of node rest)
unfolding entry_of
entry_of-here node p rest = rw (text_eq_refl node, entry_of) refl

entry_of-there :
    (node n : Text) (p : ℕ) (rest : Points)
    → text_eq n node ≡ false
    → entry_of node ((n, p) ∷ rest) ≡ entry_of node rest
unfolding entry_of
entry_of-there node n p rest e = rw (e, entry_of) refl

entry_of-same :
    (node : Text) (i : ℕ) (b m : Bool) (rest : Points)
    → Fair (m && not b) (entry_of node rest)
    → Fair (not b) (entry_of node (elim b [ true ↦ rest | false ↦ (node, score_at i) ∷ rest ]))
unfolding entry_of
entry_of-same node i true true rest h = h
entry_of-same node i true false rest h = h
entry_of-same node i false m rest h =
    subst (Fair true) (sym (entry_of-here node (score_at i) rest))
      (later_or-Fair (m && true) i (entry_of node rest) h)

entry_of-other :
    (node n : Text) (i : ℕ) (b c : Bool) (rest : Points)
    → text_eq n node ≡ false
    → Fair c (entry_of node rest)
    → Fair c (entry_of node (elim b [ true ↦ rest | false ↦ (n, score_at i) ∷ rest ]))
unfolding entry_of
entry_of-other node n i true c rest e h = h
entry_of-other node n i false c rest e h =
    subst (Fair c) (sym (entry_of-there node n (score_at i) rest e)) h

entry_of-Fair :
    (node : Text) (i : ℕ) (ns busy : List Text)
    → Fair (member node ns && not (member node busy)) (entry_of node (scores_from i ns busy))
unfolding scores_from member
entry_of-Fair node i [] busy = unfold entry_of in refl
entry_of-Fair node i (n ∷ ns) busy = elim (Bool-cases (text_eq n node)) [
  | inl same ↦
      subst
        (λ (m : Text). Fair ((text_eq node m || member node ns) && not (member node busy)) (
          entry_of node (elim (member m busy) [
            | true ↦ scores_from (i + 1) ns busy
            | false ↦ (m, score_at i) ∷ scores_from (i + 1) ns busy
          ])))
        (sym ((text_eq_iff n node).0 same))
        (rw (text_eq_refl node) (
          entry_of-same node i (member node busy) (member node ns) (scores_from (i + 1) ns busy)
            (entry_of-Fair node (i + 1) ns busy)))
  | inr other ↦ rw (text_eq-sym_false n node other) (
      entry_of-other node n i (member n busy) (member node ns && not (member node busy))
        (scores_from (i + 1) ns busy) other (entry_of-Fair node (i + 1) ns busy))
]

or_zero-Fair :
    (b : Bool) (o : Option ℕ)
    → Fair b o
    → ((b ≡ false) × (or_zero o ≡ 0)) ⊎ ((b ≡ true) × (50 ≤ or_zero o) × (or_zero o ≤ 100))
or_zero-Fair b none h = inl (h, refl)
or_zero-Fair b (some p) h = inr h

-- A node scores between 50 and 100 if it is remembered and no sibling runs there, and 0 otherwise.
points_at-scores :
    (node : Text) (remembered busy : List Text)
    → (((member node remembered && not (member node busy)) ≡ false)
        × (points_at node (scores remembered busy) ≡ 0))
      ⊎ (((member node remembered && not (member node busy)) ≡ true)
          × (50 ≤ points_at node (scores remembered busy))
          × (points_at node (scores remembered busy) ≤ 100))
unfolding points_at scores
points_at-scores node remembered busy =
    or_zero-Fair (member node remembered && not (member node busy))
      (entry_of node (scores_from 0 remembered busy)) (entry_of-Fair node 0 remembered busy)
