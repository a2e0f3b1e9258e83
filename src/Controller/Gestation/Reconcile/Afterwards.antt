-- ===== src/Controller/Gestation/Reconcile/Afterwards.antt =====
-- afterBirth keeps a status valid and does not lead back.
use kyvernetria.Controller.Gestation.Reconcile.Valid.{
  ValidAt, rank, Keeps, Keeps-of, rebirth, in_care-cases, cared-Keeps,
}
use kyvernetria.Controller.Gestation.Reconcile.Lives.{
  HasBirth, Resolved, Scored, Tended, resolve_revisions-Resolved, apgar-Scored, care_for-Tended,
}
use kyvernetria.Controller.Gestation.State.{
  Phase, unset, expecting, due, delivering, newborn_care, needs_caregivers, grown, rolled_back,
  departed, Spec, Birth, Care, Status, Deployment, Cluster, Pass, in_care,
}
use kyvernetria.Controller.Gestation.Score.{ScoreApi, resolve_revisions, apgar}
use kyvernetria.Controller.Gestation.Nursery.{
  CareApi, after_birth, tend_born, care_if_newborn, score_if_newborn, care_for, depart, departing,
}
use kyvernetria.Prelude.Int.{ℤ}
use kyvernetria.Prelude.{
  ℕ, ◌≤◌, ◌≡◌, ◌⊎◌, inl, inr, refl, subst, ◌∙◌, Bool, true, not, Option, none, some, arith,
  Bool-cases, str_eq,
}

-- The parts of a pass keep what holds before them.
Scored-Keeps :
    (n : ℕ) (g : Status) (p : Pass) → in_care g ≡ true → Keeps n g → Scored g p → Keeps n p.status
Scored-Keeps n g p i k (b, inl (e, c)) = cared-Keeps n g p.status i k.1 e b
Scored-Keeps n g p i k ((b, f), inr (inl (e, c))) =
    Keeps-of n p.status rolled_back (some b) none ((b, refl), refl) (rank_le (in_care-cases g i)) e
      f c
  where
    rank_le : (g.phase ≡ newborn_care) ⊎ (g.phase ≡ needs_caregivers) → n ≤ 3
    rank_le (inl e) = omega (arith, subst (λ x. n ≤ rank x) e k.1)
    rank_le (inr e) = omega (arith, subst (λ x. n ≤ rank x) e k.1)
Scored-Keeps n g p i k (b, inr (inr (e, c, failed))) = cared-Keeps n g p.status i k.1 e b

Resolved-Keeps :
    (n : ℕ) (b : Birth) (g h : Status)
    → ValidAt g.phase (some b) g.care
    → n ≤ rank g.phase
    → Resolved g h
    → Keeps n h
Resolved-Keeps n b g h v r ((d, f), e, c) =
    Keeps-of n h g.phase (some d) g.care (rebirth g.phase b d g.care v) r e f c

-- In care the rank is 2, so every phase that care leads to is as far.
Tended-Keeps :
    (n : ℕ) (g h : Status) → in_care g ≡ true → Keeps n g → HasBirth g → Tended g h → Keeps n h
Tended-Keeps n g h i k (b, f) (e, inr (p, c)) = cared-Keeps n g h i k.1 p (b, e ∙ f)
Tended-Keeps n g h i k (b, f) (e, inl ((c, fc), cases)) = elim cases [
  | inl new ↦ Keeps-of n h newborn_care (some b) (some c) (b, refl) low new (e ∙ f) fc
  | inr (inl waits) ↦ Keeps-of n h needs_caregivers (some b) (some c) (b, refl) low waits (e ∙ f) fc
  | inr (inr home) ↦
      Keeps-of n h grown (some b) (some c) ((b, refl), (c, refl)) (omega (arith, low)) home (e ∙ f)
        fc
]
  where
    rank_le : (g.phase ≡ newborn_care) ⊎ (g.phase ≡ needs_caregivers) → n ≤ 2
    rank_le (inl e) = subst (λ x. n ≤ rank x) e k.1
    rank_le (inr e) = subst (λ x. n ≤ rank x) e k.1

    low : n ≤ 2
    low = rank_le (in_care-cases g i)

score_if_newborn-Keeps :
    (api : ScoreApi) (now : ℤ) (s : Spec) (b : Option Birth) (d : Deployment) (g : Status)
    (e : Bool) (k : Cluster) (n : ℕ)
    → g.birth ≡ b
    → HasBirth g
    → Keeps n g
    → Keeps n (score_if_newborn api now s b d (g, e) k).status
      × HasBirth (score_if_newborn api now s b d (g, e) k).status
unfolding score_if_newborn
score_if_newborn-Keeps api now s none d g e k n f birth keeps = (keeps, birth)
score_if_newborn-Keeps api now s (some b) d g e k n f birth keeps = elim (Bool-cases (in_care g)) [
  | inr outside ↦ rw outside (keeps, birth)
  | inl newborn ↦ rw newborn (
    Scored-Keeps n g (apgar api now s b g d k) newborn keeps (apgar-Scored api now s b g d k f),
    (apgar-Scored api now s b g d k f).0,
  )
]

care_if_newborn-Keeps :
    (api : CareApi) (now : ℤ) (b : Option Birth) (care : Option Care) (d : Deployment) (p : Pass)
    (n : ℕ)
    → HasBirth p.status
    → Keeps n p.status
    → Keeps n (care_if_newborn api now b care d p).status
unfolding care_if_newborn
care_if_newborn-Keeps api now none care d p n birth keeps = keeps
care_if_newborn-Keeps api now (some b) none d p n birth keeps = keeps
care_if_newborn-Keeps api now (some b) (some care) d p n birth keeps =
    elim (Bool-cases (in_care p.status)) [
      | inr outside ↦ rw outside keeps
      | inl newborn ↦ rw newborn (
          Tended-Keeps n p.status (care_for api now b care p.status d p.cluster).status newborn
            keeps birth (care_for-Tended api now b care p.status d p.cluster))
    ]

-- Both of a newborn's steps, after its revisions are resolved.
resolved_newborn-Keeps :
    (score : ScoreApi) (care : CareApi) (now : ℤ) (s : Spec) (g : Status) (d : Deployment)
    (e : Bool) (k : Cluster) (n : ℕ)
    → HasBirth g
    → Keeps n g
    → Keeps n
        (care_if_newborn care now
          (score_if_newborn score now s g.birth d (g, e) k).status.birth
          (score_if_newborn score now s g.birth d (g, e) k).status.care
          d
          (score_if_newborn score now s g.birth d (g, e) k)).status
resolved_newborn-Keeps score care now s g d e k n birth keeps =
    let scored = score_if_newborn-Keeps score now s g.birth d g e k n refl birth keeps in
    care_if_newborn-Keeps care now _ _ d (score_if_newborn score now s g.birth d (g, e) k) n
      scored.1 scored.0

tend_born-Keeps :
    (score : ScoreApi) (care : CareApi) (now : ℤ) (s : Spec) (b : Birth) (g : Status)
    (d : Deployment) (k : Cluster) (n : ℕ)
    → g.birth ≡ some b
    → ValidAt g.phase (some b) g.care
    → n ≤ rank g.phase
    → Keeps n (tend_born score care now s b g d k).status
unfolding tend_born
tend_born-Keeps score care now s b g d k n f v r =
    let resolved = resolve_revisions-Resolved score b g d f in
    resolved_newborn-Keeps score care now s (resolve_revisions score b g d).0 d
      (resolve_revisions score b g d).1 k n resolved.0
      (Resolved-Keeps n b g (resolve_revisions score b g d).0 v r resolved)

depart-Keeps :
    (api : CareApi) (b : Birth) (g : Status) (k : Cluster) (n : ℕ)
    → g.birth ≡ some b
    → n ≤ 4
    → Keeps n (depart api g k).status
unfolding depart
depart-Keeps api b g k n f r =
    Keeps-of n (record g { phase = departed; care = none }) departed (some b) none ((b, refl), refl)
      r refl f refl

departing-Keeps :
    (api : CareApi) (p : Phase) (b : Birth) (g : Status) (k : Cluster) (n : ℕ)
    → g.phase ≡ p
    → g.birth ≡ some b
    → ValidAt p (some b) g.care
    → n ≤ rank p
    → Keeps n (departing api p g k).status
unfolding departing
departing-Keeps api departed b g k n e f v r = Keeps-of n g departed (some b) g.care v r e f refl
departing-Keeps api unset b g k n e f v r = depart-Keeps api b g k n f (omega (arith, r))
departing-Keeps api expecting b g k n e f v r = depart-Keeps api b g k n f (omega (arith, r))
departing-Keeps api due b g k n e f v r = depart-Keeps api b g k n f (omega (arith, r))
departing-Keeps api delivering b g k n e f v r = depart-Keeps api b g k n f (omega (arith, r))
departing-Keeps api newborn_care b g k n e f v r = depart-Keeps api b g k n f (omega (arith, r))
departing-Keeps api needs_caregivers b g k n e f v r = depart-Keeps api b g k n f (omega (arith, r))
departing-Keeps api grown b g k n e f v r = depart-Keeps api b g k n f (omega (arith, r))
departing-Keeps api rolled_back b g k n e f v r = depart-Keeps api b g k n f (omega (arith, r))

pub after_birth-Keeps :
    (score : ScoreApi) (care : CareApi) (now : ℤ) (s : Spec) (b : Birth) (g : Status)
    (d : Option Deployment) (k : Cluster) (n : ℕ)
    → g.birth ≡ some b
    → ValidAt g.phase (some b) g.care
    → n ≤ rank g.phase
    → Keeps n (after_birth score care now s b g d k).status
unfolding after_birth
after_birth-Keeps score care now s b g none k n f v r =
    departing-Keeps care g.phase b g k n refl f v r
after_birth-Keeps score care now s b g (some d) k n f v r =
    elim (Bool-cases (not (str_eq d.uid b.uid))) [
      | inl other ↦ rw other (departing-Keeps care g.phase b g k n refl f v r)
      | inr own ↦ rw own (tend_born-Keeps score care now s b g d k n f v r)
    ]
