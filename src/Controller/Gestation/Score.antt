-- ===== src/Controller/Gestation/Score.antt =====
-- controller/gestation/birth.go: revisions, the Apgar scores of a launch, and its rollback.
use kyvernetria.Controller.Gestation.State.{
  rolled_back, Spec, Birth, Status, Deployment, ReplicaSet, Cluster, Pass, rollback_enabled, fails,
  succeeds,
}
use kyvernetria.Controller.Gestation.Birth.{delete_pdb, end_care}
use kyvernetria.Gestation.Apgar.{Apgar, Signs, score, next_minute, rollback}
use Prim.Native.String.{◌++◌ as append}
use kyvernetria.Text.Decimal.{parse_int, format_int}
use kyvernetria.Text.{codes}
use kyvernetria.Prelude.Int.{ℤ, pos, ◌+ℤ◌, ◌*ℤ◌, ltb_ℤ, eqb_ℤ}
use kyvernetria.Prelude.{
  ℕ, ◌==◌, Bool, true, false, not, ◌&&◌, ◌||◌, List, [], ◌∷◌, ◌++◌, String, Option, none, some,
  if◌then◌else◌, str_eq,
}

-- What the API and the informers answer while a launch is scored; `none` is an error.
pub record ScoreApi : Type 0 where
  pub replica_sets : Option (List ReplicaSet)
  pub signs : Option Signs
  pub updated : Bool
  pub pdb_deleted : Bool

abbrev pub number_of : Option ℤ → ℤ
number_of none = pos 0
number_of (some n) = n

-- revisionNumber: 0 where the annotation is no number.
unfoldable pub revision_number : ReplicaSet → ℤ
revision_number r = number_of (parse_int (codes r.revision))

-- newReplicaSet: the first with the Deployment's template.
unfoldable pub new_replica_set : Deployment → List ReplicaSet → Option ReplicaSet
new_replica_set d [] = none
new_replica_set d (r ∷ rs) = if str_eq r.template d.template then some r else new_replica_set d rs

unfoldable pub replica_set_at : String → List ReplicaSet → Option ReplicaSet
replica_set_at revision [] = none
replica_set_at revision (r ∷ rs) =
    if str_eq r.revision revision then some r else replica_set_at revision rs

-- The largest revision number below `born`; `best` is the one so far.
unfoldable pub earlier_revision : ℤ → ℤ → List ReplicaSet → ℤ
unfolding revision_number
earlier_revision born best [] = best
earlier_revision born best (r ∷ rs) =
    elim (ltb_ℤ (revision_number r) born && ltb_ℤ best (revision_number r)) [
      | true ↦ earlier_revision born (revision_number r) rs
      | false ↦ earlier_revision born best rs
    ]

abbrev pub digit_text : ℕ → String
digit_text c =
    if c == b'0'
    then "0"
    else (if c == b'1'
        then "1"
        else (if c == b'2'
            then "2"
            else (if c == b'3'
                then "3"
                else (if c == b'4'
                    then "4"
                    else (if c == b'5'
                        then "5"
                        else (if c == b'6'
                            then "6"
                            else (if c == b'7' then "7" else (if c == b'8' then "8" else "9"))))))))

-- strconv.FormatInt, for a number above 0.
unfoldable pub numeral : List ℕ → String
numeral [] = ""
numeral (c ∷ s) = append (digit_text c) (numeral s)

abbrev pub resolve_in : Birth → Status → Deployment → List ReplicaSet → Option ReplicaSet → Status
resolve_in b g d rs none = g
resolve_in b g d rs (some newest) = record g {
  birth = some (record b {
    revision = newest.revision;
    previous_revision =
        (let earlier = earlier_revision (revision_number newest) (pos 0) rs in
          if ltb_ℤ (pos 0) earlier then numeral (format_int earlier) else b.previous_revision);
  });
}

unfoldable pub resolve_among :
    Birth → Status → Deployment → Option (List ReplicaSet) → Status × Bool
unfolding new_replica_set earlier_revision numeral format_int
resolve_among b g d none = (g, true)
resolve_among b g d (some rs) = (resolve_in b g d rs (new_replica_set d rs), false)

-- resolveRevisions, once the deployment controller has seen the birth.
unfoldable pub resolve_revisions : ScoreApi → Birth → Status → Deployment → Status × Bool
unfolding resolve_among
resolve_revisions api b g d =
    if not (str_eq b.revision "") || not d.settled
    then (g, false)
    else resolve_among b g d api.replica_sets

abbrev pub rolled_deployment : Birth → Deployment → ReplicaSet → Deployment
rolled_deployment b d r = end_care b (record d { template = r.template })

unfoldable pub rollback_to :
    ScoreApi → Birth → Status → Deployment → Option ReplicaSet → Cluster → Pass
unfolding end_care delete_pdb
rollback_to api b g d none k = fails g k
rollback_to api b g d (some r) k =
    if not api.updated
    then fails g k
    else (let g' = record g {
      birth = some (record b { rolled_back_to = b.previous_revision });
      care = none;
    } in
        let (k', failed) =
          delete_pdb api.pdb_deleted g'
            (record k { deployment = some (rolled_deployment b d r) }) in
        record { status = g'; cluster = k'; failed = failed })

unfoldable pub roll_among :
    ScoreApi → Birth → Status → Deployment → Option (List ReplicaSet) → Cluster → Pass
unfolding rollback_to replica_set_at
roll_among api b g d none k = fails g k
roll_among api b g d (some rs) k = rollback_to api b g d (replica_set_at b.previous_revision rs) k

-- (c *Controller).rollback.
unfoldable pub roll : ScoreApi → Birth → Status → Deployment → Cluster → Pass
unfolding roll_among
roll api b g d k = roll_among api b g d api.replica_sets k

abbrev pub scored : Apgar → Status → Status
scored a g = record g { apgar = g.apgar ++ a ∷ [] }

abbrev pub scored_after_roll : Apgar → Pass → Pass
scored_after_roll a p =
    if p.failed then p else succeeds (record (scored a p.status) { phase = rolled_back }) p.cluster

unfoldable pub take_score : ScoreApi → Birth → Apgar → Bool → Status → Deployment → Cluster → Pass
unfolding roll
take_score api b a true g d k = scored_after_roll a (roll api b g d k)
take_score api b a false g d k = succeeds (scored a g) k

abbrev pub minute : ℤ
minute = pos 60000000000

-- Whether a score is due.
unfoldable pub score_due : ℤ → Birth → ℤ → Bool
unfolding ◌+ℤ◌ ◌*ℤ◌
score_due next b now =
    not (eqb_ℤ next (pos 0) || str_eq b.revision "" || ltb_ℤ now (b.time +ℤ next *ℤ minute))

unfoldable pub apgar_with :
    ScoreApi → ℤ → Spec → Birth → Option Signs → Status → Deployment → Cluster → Pass
unfolding take_score
apgar_with api next s b none g d k = fails g k
apgar_with api next s b (some signs) g d k =
    take_score api b (score next signs)
      (rollback (score next signs) (rollback_enabled s) b.previous_revision).0 g d k

-- (c *Controller).apgar.
unfoldable pub apgar : ScoreApi → ℤ → Spec → Birth → Status → Deployment → Cluster → Pass
unfolding score_due apgar_with
apgar api now s b g d k =
    if score_due (next_minute g.apgar) b now
    then apgar_with api (next_minute g.apgar) s b api.signs g d k
    else succeeds g k
