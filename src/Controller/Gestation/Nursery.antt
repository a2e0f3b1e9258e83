-- ===== src/Controller/Gestation/Nursery.antt =====
-- controller/gestation/care.go: newborn care, discharge and departure.
pub mod Discharge
use kyvernetria.Controller.Gestation.State.{
  Phase, newborn_care, needs_caregivers, grown, departed, Spec, Birth, Care, Status, Deployment,
  Cluster, Pass, in_care, fails, succeeds,
}
use kyvernetria.Controller.Gestation.Birth.{delete_pdb, end_care}
use kyvernetria.Controller.Gestation.Score.{ScoreApi, resolve_revisions, apgar}
use kyvernetria.Gestation.Care.{Caregivers, caregivers_of, care_tier, last_tier_class, hour}
use kyvernetria.Gestation.Pregnancy.{sub_time}
use kyvernetria.Text.{text_eq}
use kyvernetria.Prelude.Int.{ℤ, pos, ltb_ℤ}
use kyvernetria.Prelude.{
  ℕ, ◌*◌, Bool, true, false, not, ◌&&◌, ◌||◌, List, [], ◌∷◌, ◌++◌, String, Option, none, some,
  if◌then◌else◌, str_eq, ltb,
}

-- What newborn care asks of the API beside the scores: the Deployment's update and the budget's
-- removal at discharge, and the budget's removal at departure. `wide` folds case beyond ASCII.
pub record CareApi : Type 0 where
  pub discharged : Bool
  pub pdb_deleted : Bool
  pub wide : ℕ → ℕ

abbrev pub nag_interval : ℤ
nag_interval = pos (12 * hour)

unfoldable pub discharge : CareApi → ℤ → Birth → Care → Status → Deployment → Cluster → Pass
unfolding end_care delete_pdb
discharge api now b care g d k =
    if not api.discharged
    then fails g k
    else (let (k', failed) =
          delete_pdb api.pdb_deleted g (record k { deployment = some (end_care b d) }) in
        if failed
        then fails g k'
        else succeeds
            (record g {
              care =
                  some (record care { tier = pos 0; priority_class = ""; discharged = some now });
              phase = grown;
            })
            k')

abbrev pub nag_due : ℤ → Option ℤ → Bool
nag_due now none = true
nag_due now (some last) = not (ltb_ℤ (sub_time now last) nag_interval)

abbrev pub keep_tier : ℕ × String → Care → Care
keep_tier (tier, class) care = record care { tier = pos tier; priority_class = class }

abbrev pub held_back : ℤ → Care → Care
held_back now care =
    let kept = keep_tier last_tier_class care in
    if nag_due now care.last_nag then record kept { last_nag = some now } else kept

abbrev pub noted : Caregivers → Option Caregivers
noted c = if text_eq c.primary [] && text_eq c.secondary [] then none else some c

unfoldable pub tend :
    CareApi → ℤ → Birth → Care → Bool → ℕ × String → Status → Deployment → Cluster → Pass
unfolding discharge sub_time last_tier_class
tend api now b care ok (tier, class) g d k =
    if ltb 0 tier
    then succeeds (record g { care = some (keep_tier (tier, class) care); phase = newborn_care }) k
    else (if ok
        then discharge api now b care g d k
        else succeeds (record g { care = some (held_back now care); phase = needs_caregivers }) k)

-- (c *Controller).care.
unfoldable pub care_for : CareApi → ℤ → Birth → Care → Status → Deployment → Cluster → Pass
unfolding tend caregivers_of
care_for api now b care g d k =
    let (people, (ok, missing)) = caregivers_of api.wide d.annotations in
    tend api now b care ok (care_tier (sub_time now b.time))
      (record g { caregivers = noted people }) d k

unfoldable pub depart : CareApi → Status → Cluster → Pass
unfolding delete_pdb
depart api g k =
    let (k', failed) = delete_pdb api.pdb_deleted g k in
    record { status = record g { phase = departed; care = none }; cluster = k'; failed = failed }

unfoldable pub departing : CareApi → Phase → Status → Cluster → Pass
unfolding depart
departing api departed g k = succeeds g k
departing api _ g k = depart api g k

abbrev pub join_errors : Bool → Pass → Pass
join_errors e p = record p { failed = e || p.failed }

-- The part of afterBirth that looks after a newborn; it reads birth and Deployment as they are now.
unfoldable pub care_if_newborn : CareApi → ℤ → Option Birth → Option Care → Deployment → Pass → Pass
unfolding care_for
care_if_newborn api now none care d p = p
care_if_newborn api now (some b) none d p = p
care_if_newborn api now (some b) (some care) d p =
    if in_care p.status
    then join_errors p.failed (care_for api now b care p.status d p.cluster)
    else p

unfoldable pub score_if_newborn :
    ScoreApi → ℤ → Spec → Option Birth → Deployment → Status × Bool → Cluster → Pass
unfolding apgar
score_if_newborn api now s none d (g, e) k = record { status = g; cluster = k; failed = e }
score_if_newborn api now s (some b) d (g, e) k =
    if in_care g
    then join_errors e (apgar api now s b g d k)
    else record { status = g; cluster = k; failed = e }

unfoldable pub tend_born :
    ScoreApi → CareApi → ℤ → Spec → Birth → Status → Deployment → Cluster → Pass
unfolding score_if_newborn care_if_newborn resolve_revisions
tend_born score care now s b g d k =
    let (g', e) = resolve_revisions score b g d in
    let p = score_if_newborn score now s g'.birth d (g', e) k in
    care_if_newborn care now p.status.birth p.status.care d p

-- (c *Controller).afterBirth, up to the growth chart and the record of the service.
unfoldable pub after_birth :
    ScoreApi → CareApi → ℤ → Spec → Birth → Status → Option Deployment → Cluster → Pass
unfolding tend_born departing
after_birth score care now s b g none k = departing care g.phase g k
after_birth score care now s b g (some d) k =
    if not (str_eq d.uid b.uid)
    then departing care g.phase g k
    else tend_born score care now s b g d k
