-- ===== src/Gestation/Apgar/Schedule.antt =====
-- When scores are taken: at 1 and 5 minutes, then every five minutes up to 20 while they stay low.
use kyvernetria.Gestation.Apgar.{
  Signs, Apgar, score, next_minute, next_after, reassuring, rollback, returning_to,
}
use kyvernetria.Prelude.Int.{ℤ, pos, ◌<ℤ◌, eqb_ℤ}
use kyvernetria.Prelude.{
  ℕ, zero, suc, ◌+◌, ◌≤◌, ◌<◌, ◌≡◌, ◌≢◌, ◌↔◌, ◌⊎◌, inl, inr, ◌∙◌, ap, refl, Bool, true, List, [],
  ◌∷◌, ◌++◌, String, arith, length, length-append, if◌then◌else◌, Bool-cases, str_eq_iff,
}

-- One visit of the controller that finds a score due: `signs` are what it observes at each minute.
pub visit : (ℤ → Signs) → List Apgar → List Apgar
visit signs scores =
    if eqb_ℤ (next_minute scores) (pos 0)
    then scores
    else scores ++ score (next_minute scores) (signs (next_minute scores)) ∷ []

pub visits : (ℤ → Signs) → ℕ → List Apgar
unfolding visit
visits signs zero = []
visits signs (suc n) = visit signs (visits signs n)

minute_of : Apgar → ℤ
minute_of a = a.minute

-- The minutes at which the first n scores are taken, at most.
abbrev pub minutes : List ℤ
minutes = pos 1 ∷ pos 5 ∷ pos 10 ∷ pos 15 ∷ pos 20 ∷ []

-- The scores stand at the first minutes of the schedule.
abbrev pub OnSchedule : List Apgar → List ℤ → Type 0
OnSchedule [] ms = Unit {0}
OnSchedule (a ∷ rest) [] = ⊥
OnSchedule (a ∷ rest) (m ∷ ms) = (a.minute ≡ m) × OnSchedule rest ms

score-minute : (m : ℤ) (s : Signs) → (score m s).minute ≡ m
unfolding score
score-minute m s = refl

-- After a score at 5, 10 or 15 minutes the next one comes five minutes later, or not at all.
next_after-early : (a : Apgar) → a.minute ≡ pos 1 → next_after a ≡ pos 5
unfolding next_after
next_after-early a h = ground arith

next_after-late :
    (a : Apgar) (m : ℕ)
    → a.minute ≡ pos m
    → 5 ≤ m
    → m < 20
    → (next_after a ≡ pos 0) ⊎ (next_after a ≡ pos (m + 5))
unfolding next_after
next_after-late a m h k l = ground arith

next_after-last : (a : Apgar) → a.minute ≡ pos 20 → next_after a ≡ pos 0
unfolding next_after
next_after-last a h = ground arith

visit-OnSchedule :
    (signs : ℤ → Signs) (scores : List Apgar)
    → OnSchedule scores minutes
    → OnSchedule (visit signs scores) minutes
unfolding visit next_minute
visit-OnSchedule signs [] h = (score-minute _ _, tt)
visit-OnSchedule signs (a ∷ []) h = rw (next_after-early a h.0) (h.0, (score-minute _ _, tt))
visit-OnSchedule signs (a ∷ b ∷ []) h =
    elim (next_after-late b 5 h.1.0 (omega arith) (omega arith)) [
      | inl over ↦ rw over h
      | inr more ↦ rw more (h.0, (h.1.0, (score-minute _ _, tt)))
    ]
visit-OnSchedule signs (a ∷ b ∷ c ∷ []) h =
    elim (next_after-late c 10 h.1.1.0 (omega arith) (omega arith)) [
      | inl over ↦ rw over h
      | inr more ↦ rw more (h.0, (h.1.0, (h.1.1.0, (score-minute _ _, tt))))
    ]
visit-OnSchedule signs (a ∷ b ∷ c ∷ d ∷ []) h =
    elim (next_after-late d 15 h.1.1.1.0 (omega arith) (omega arith)) [
      | inl over ↦ rw over h
      | inr more ↦ rw more (h.0, (h.1.0, (h.1.1.0, (h.1.1.1.0, (score-minute _ _, tt)))))
    ]
visit-OnSchedule signs (a ∷ b ∷ c ∷ d ∷ e ∷ []) h = rw (next_after-last e h.1.1.1.1.0) h
visit-OnSchedule signs (a ∷ b ∷ c ∷ d ∷ e ∷ f ∷ fs) h = absurd h.1.1.1.1.1

-- Whatever is observed, and however often the controller visits, the scores stand at the minutes 1,
-- 5, 10, 15 and 20 in this order, from the first on.
pub visits-OnSchedule : (signs : ℤ → Signs) (n : ℕ) → OnSchedule (visits signs n) minutes
unfolding visits
visits-OnSchedule signs zero = tt
visits-OnSchedule signs (suc n) =
    visit-OnSchedule signs (visits signs n) (visits-OnSchedule signs n)

visit-grows :
    (signs : ℤ → Signs) (scores : List Apgar)
    → (next_minute scores ≡ pos 0) ⊎ (length (visit signs scores) ≡ suc (length scores))
unfolding visit
visit-grows signs scores = elim (Bool-cases (eqb_ℤ (next_minute scores) (pos 0))) [
  | inl over ↦ inl (ground arith)
  | inr more ↦ inr (
      rw more (
        omega (
          arith,
          length-append scores (score (next_minute scores) (signs (next_minute scores)) ∷ []),
        )))
]

visit-over :
    (signs : ℤ → Signs) (scores : List Apgar)
    → next_minute scores ≡ pos 0
    → visit signs scores ≡ scores
unfolding visit
visit-over signs scores h = rw h

grown :
    (signs : ℤ → Signs) (n : ℕ)
    → (next_minute (visits signs n) ≡ pos 0) ⊎ (length (visits signs n) ≡ n)
unfolding visits
grown signs zero = inr refl
grown signs (suc n) = elim (grown signs n) [
  | inl over ↦ inl (ap next_minute (visit-over signs (visits signs n) over) ∙ over)
  | inr len ↦ elim (visit-grows signs (visits signs n)) [
    | inl over ↦ inl (ap next_minute (visit-over signs (visits signs n) over) ∙ over)
    | inr more ↦ inr (more ∙ ap suc len)
  ]
]

OnSchedule-length : (scores : List Apgar) → OnSchedule scores minutes → length scores ≤ 5
OnSchedule-length [] h = omega arith
OnSchedule-length (a ∷ []) h = omega arith
OnSchedule-length (a ∷ b ∷ []) h = omega arith
OnSchedule-length (a ∷ b ∷ c ∷ []) h = omega arith
OnSchedule-length (a ∷ b ∷ c ∷ d ∷ []) h = omega arith
OnSchedule-length (a ∷ b ∷ c ∷ d ∷ e ∷ []) h = omega arith
OnSchedule-length (a ∷ b ∷ c ∷ d ∷ e ∷ f ∷ fs) h = absurd h.1.1.1.1.1

-- Scoring ends: at most five scores are taken, and after six visits none is due any more.
pub visits_end :
    (signs : ℤ → Signs) (n : ℕ)
    → (length (visits signs n) ≤ 5) × (next_minute (visits signs 6) ≡ pos 0)
visits_end signs n = (
  OnSchedule-length (visits signs n) (visits-OnSchedule signs n),
  elim (grown signs 6) [
    | inl over ↦ over
    | inr len ↦
        absurd (omega (arith, len, OnSchedule-length (visits signs 6) (visits-OnSchedule signs 6)))
  ],
)

-- A launch is rolled back exactly on the score of the fifth minute, when it is below 7, when rollback
-- is enabled, and when there is an earlier revision; and then to that revision.
rollback_iff :
    (a : Apgar) (enabled : Bool) (previous : String)
    → (rollback a enabled previous ≡ (true, returning_to previous))
      ↔ ((a.minute ≡ pos 5) × (a.total <ℤ reassuring) × (enabled ≡ true) × (previous ≢ ""))
unfolding rollback
rollback_iff a enabled previous =
    (λ h. ground (arith, str_eq_iff previous ""), λ h. ground (arith, str_eq_iff previous ""))
