-- ===== src/Controller/Gestation/Reconcile/Lives.antt =====
-- What the steps after a birth do to phase, birth and care.
use kyvernetria.Controller.Gestation.State.{
  newborn_care, needs_caregivers, grown, rolled_back, Spec, Birth, Care, Status, Deployment,
  ReplicaSet, Cluster, Pass, rollback_enabled,
}
use kyvernetria.Controller.Gestation.Birth.{delete_pdb, end_care}
use kyvernetria.Controller.Gestation.Score.{
  ScoreApi, resolve_revisions, resolve_in, resolve_among, roll_among, apgar_with, scored_after_roll,
  new_replica_set, apgar, take_score, roll, rollback_to, replica_set_at, score_due,
}
use kyvernetria.Controller.Gestation.Nursery.{CareApi, care_for, tend, discharge, noted}
use kyvernetria.Gestation.Apgar.{Apgar, Signs, score, next_minute, rollback}
use kyvernetria.Gestation.Care.{caregivers_of, care_tier}
use kyvernetria.Gestation.Pregnancy.{sub_time}
use kyvernetria.Prelude.Int.{ℤ}
use kyvernetria.Prelude.{
  ℕ, ◌≡◌, ◌⊎◌, inl, inr, refl, ap, ◌∙◌, Bool, true, false, not, List, String, Option, none, some,
  Bool-cases, ltb, str_eq, ◌||◌,
}

abbrev pub HasBirth : Status → Type 0
HasBirth g = (b : Birth) × (g.birth ≡ some b)

abbrev pub HasCare : Status → Type 0
HasCare g = (c : Care) × (g.care ≡ some c)

-- After resolving revisions there is still a birth, and phase and care are as before.
abbrev pub Resolved : Status → Status → Type 0
Resolved g h = HasBirth h × (h.phase ≡ g.phase) × (h.care ≡ g.care)

resolve_in-Resolved :
    (b : Birth) (g : Status) (d : Deployment) (rs : List ReplicaSet) (r : Option ReplicaSet)
    → g.birth ≡ some b
    → Resolved g (resolve_in b g d rs r)
resolve_in-Resolved b g d rs none e = ((b, e), refl, refl)
resolve_in-Resolved b g d rs (some newest) e = ((_, refl), refl, refl)

resolve_among-Resolved :
    (b : Birth) (g : Status) (d : Deployment) (rs : Option (List ReplicaSet))
    → g.birth ≡ some b
    → Resolved g (resolve_among b g d rs).0
unfolding resolve_among
resolve_among-Resolved b g d none e = ((b, e), refl, refl)
resolve_among-Resolved b g d (some rs) e = resolve_in-Resolved b g d rs (new_replica_set d rs) e

pub resolve_revisions-Resolved :
    (api : ScoreApi) (b : Birth) (g : Status) (d : Deployment)
    → g.birth ≡ some b
    → Resolved g (resolve_revisions api b g d).0
unfolding resolve_revisions
resolve_revisions-Resolved api b g d e =
    elim (Bool-cases (not (str_eq b.revision "") || not d.settled)) [
      | inl known ↦ rw known ((b, e), refl, refl)
      | inr open_yet ↦ rw open_yet (resolve_among-Resolved b g d api.replica_sets e)
    ]

-- What scoring does: nothing to phase and care, a rollback, or a rollback that fails at its last step.
abbrev pub Scored : Status → Pass → Type 0
Scored g p =
    HasBirth p.status
    × (((p.status.phase ≡ g.phase) × (p.status.care ≡ g.care))
        ⊎ (((p.status.phase ≡ rolled_back) × (p.status.care ≡ none))
            ⊎ ((p.status.phase ≡ g.phase) × (p.status.care ≡ none) × (p.failed ≡ true))))

-- What a rollback does: it fails before it changes anything, or it ends the care.
abbrev pub Rolled : Birth → Status → Pass → Type 0
Rolled b g p =
    ((p.status ≡ g) × (p.failed ≡ true))
    ⊎ (HasBirth p.status × (p.status.phase ≡ g.phase) × (p.status.care ≡ none))

rollback_to-Rolled :
    (api : ScoreApi) (b : Birth) (g : Status) (d : Deployment) (r : Option ReplicaSet) (k : Cluster)
    → Rolled b g (rollback_to api b g d r k)
unfolding rollback_to
rollback_to-Rolled api b g d none k = inl (refl, refl)
rollback_to-Rolled api b g d (some r) k = elim (Bool-cases api.updated) [
  | inr failure ↦ simp failure (inl (refl, refl))
  | inl done ↦
      simp done (inr ((record b { rolled_back_to = b.previous_revision }, refl), refl, refl))
]

roll_among-Rolled :
    (api : ScoreApi) (b : Birth) (g : Status) (d : Deployment) (rs : Option (List ReplicaSet))
    (k : Cluster)
    → Rolled b g (roll_among api b g d rs k)
unfolding roll_among
roll_among-Rolled api b g d none k = inl (refl, refl)
roll_among-Rolled api b g d (some rs) k =
    rollback_to-Rolled api b g d (replica_set_at b.previous_revision rs) k

scored_after_roll-Scored :
    (a : Apgar) (b : Birth) (g : Status) (p : Pass)
    → g.birth ≡ some b
    → Rolled b g p
    → Scored g (scored_after_roll a p)
scored_after_roll-Scored a b g p e (inl (same, failure)) =
    simp failure
      ((b, ap (λ h. h.birth) same ∙ e), inl (ap (λ h. h.phase) same, ap (λ h. h.care) same))
scored_after_roll-Scored a b g p e (inr (birth, phase, care)) = elim (Bool-cases p.failed) [
  | inl failure ↦ simp failure (birth, inr (inr (phase, care, refl)))
  | inr done ↦ simp done (birth, inr (inl (refl, care)))
]

take_score-Scored :
    (api : ScoreApi) (b : Birth) (a : Apgar) (rolls : Bool) (g : Status) (d : Deployment)
    (k : Cluster)
    → g.birth ≡ some b
    → Scored g (take_score api b a rolls g d k)
unfolding take_score roll
take_score-Scored api b a true g d k e =
    scored_after_roll-Scored a b g _ e (roll_among-Rolled api b g d api.replica_sets k)
take_score-Scored api b a false g d k e = ((b, e), inl (refl, refl))

apgar_with-Scored :
    (api : ScoreApi) (next : ℤ) (s : Spec) (b : Birth) (signs : Option Signs) (g : Status)
    (d : Deployment) (k : Cluster)
    → g.birth ≡ some b
    → Scored g (apgar_with api next s b signs g d k)
unfolding apgar_with
apgar_with-Scored api next s b none g d k e = ((b, e), inl (refl, refl))
apgar_with-Scored api next s b (some signs) g d k e =
    take_score-Scored api b (score next signs)
      (rollback (score next signs) (rollback_enabled s) b.previous_revision).0 g d k e

pub apgar-Scored :
    (api : ScoreApi) (now : ℤ) (s : Spec) (b : Birth) (g : Status) (d : Deployment) (k : Cluster)
    → g.birth ≡ some b
    → Scored g (apgar api now s b g d k)
unfolding apgar
apgar-Scored api now s b g d k e = elim (Bool-cases (score_due (next_minute g.apgar) b now)) [
  | inl now_due ↦ rw now_due (apgar_with-Scored api (next_minute g.apgar) s b api.signs g d k e)
  | inr later ↦ rw later ((b, e), inl (refl, refl))
]

-- What care does to a newborn: it stays in care, waits for caregivers, goes home, or nothing.
abbrev pub Tended : Status → Status → Type 0
Tended g h =
    (h.birth ≡ g.birth)
    × ((HasCare h × ((h.phase ≡ newborn_care) ⊎ ((h.phase ≡ needs_caregivers) ⊎ (h.phase ≡ grown))))
        ⊎ ((h.phase ≡ g.phase) × (h.care ≡ g.care)))

discharge-Tended :
    (api : CareApi) (now : ℤ) (b : Birth) (care : Care) (g : Status) (d : Deployment) (k : Cluster)
    → Tended g (discharge api now b care g d k).status
unfolding discharge
discharge-Tended api now b care g d k = elim (Bool-cases api.discharged) [
  | inr failure ↦ simp failure (refl, inr (refl, refl))
  | inl done ↦
      simp done
        (elim (Bool-cases
          (delete_pdb api.pdb_deleted g (record k { deployment = some (end_care b d) })).1) [
            | inl failure ↦ simp failure (refl, inr (refl, refl))
            | inr gone ↦ simp gone (refl, inl ((_, refl), inr (inr refl)))
          ])
]

tend-Tended :
    (api : CareApi) (now : ℤ) (b : Birth) (care : Care) (ok : Bool) (tier : ℕ × String) (g : Status)
    (d : Deployment) (k : Cluster)
    → Tended g (tend api now b care ok tier g d k).status
unfolding tend
tend-Tended api now b care ok (tier, class) g d k = elim (Bool-cases (ltb 0 tier)) [
  | inl young ↦ rw young (refl, inl ((_, refl), inl refl))
  | inr old ↦ elim (Bool-cases ok) [
    | inl named ↦ rw (old, named) (discharge-Tended api now b care g d k)
    | inr alone ↦ rw (old, alone) (refl, inl ((_, refl), inr (inl refl)))
  ]
]

pub care_for-Tended :
    (api : CareApi) (now : ℤ) (b : Birth) (care : Care) (g : Status) (d : Deployment) (k : Cluster)
    → Tended g (care_for api now b care g d k).status
unfolding care_for
care_for-Tended api now b care g d k =
    tend-Tended api now b care (caregivers_of api.wide d.annotations).1.0
      (care_tier (sub_time now b.time))
      (record g { caregivers = noted (caregivers_of api.wide d.annotations).0 }) d k
