-- ===== src/Controller/Gestation/Birth.antt =====
-- controller/gestation/birth.go: delivery, the disruption budget, and the end of newborn care.
use kyvernetria.Controller.Gestation.State.{
  newborn_care, Spec, Birth, Care, Status, Deployment, Budget, Cluster, Pass, replicas_of, fails,
  succeeds,
}
use kyvernetria.Controller.Gestation.Reserve.{ReleaseApi, release_placenta}
use kyvernetria.Gestation.Care.{care_tier, newborn_care_duration}
use kyvernetria.Gestation.Pregnancy.{sub_time}
use kyvernetria.Prelude.Int.{ℤ, pos, ◌+ℤ◌, ◌-ℤ◌, ltb_ℤ, eqb_ℤ, wrap32}
use kyvernetria.Prelude.{
  ℕ, Bool, true, false, not, ◌&&◌, [], String, Option, none, some, if◌then◌else◌,
}

-- What the API answers during a delivery: what releasing the placeholders meets, whether the namespace could be annotated, whether an autoscaler targets the Deployment, whether a budget other than that of newborn
-- care covers it, and whether the budget and the Deployment could be written; `none` is an error.
pub record DeliverApi : Type 0 where
  pub placenta : ReleaseApi
  pub annotated : Bool
  pub autoscaled : Option Bool
  pub covered : Option Bool
  pub pdb_created : Bool
  pub updated : Bool

-- placentaGrace: how long a delivery waits for the placeholders to go.
abbrev pub placenta_grace : ℤ
placenta_grace = pos 120000000000

-- The replicas at birth: what the Deployment wants, or the plan where that is 0, and one more unless
-- an autoscaler manages them.
abbrev pub wanted : Spec → Deployment → ℤ
wanted s d = if eqb_ℤ (replicas_of d.replicas) (pos 0) then s.replicas else replicas_of d.replicas

unfoldable pub birth_replicas : Spec → Deployment → Bool → ℤ
unfolding ◌+ℤ◌
birth_replicas s d true = wanted s d
birth_replicas s d false = wrap32 (wanted s d +ℤ pos 1)

-- createPDB keeps all but one replica up. A budget of that name that exists already is left alone.
unfoldable pub min_available : ℤ → ℤ
unfolding ◌-ℤ◌
min_available n = let m = wrap32 (n -ℤ pos 1) in if ltb_ℤ m (pos 1) then pos 1 else m

unfoldable pub create_pdb : ℤ → Cluster → Cluster
unfolding min_available
create_pdb n k = elim k.budget [
  | none ↦ record k { budget = some (record { min_available = min_available n; managed = true }) }
  | some b ↦ k
]

abbrev pub delete_budget : Option Budget → Option Budget
delete_budget none = none
delete_budget (some b) = if b.managed then none else some b

abbrev pub delete_pdb_of : Bool → Option Birth → Cluster → Cluster × Bool
delete_pdb_of api none k = (k, false)
delete_pdb_of api (some b) k =
    if not b.has_pdb
    then (k, false)
    else (if api then (record k { budget = delete_budget k.budget }, false) else (k, true))

-- deletePDB; the flag says whether its calls succeed, the result whether it returned an error.
unfoldable pub delete_pdb : Bool → Status → Cluster → Cluster × Bool
delete_pdb api g k = delete_pdb_of api g.birth k

-- CoveringPDB with nothing to skip: the budget of newborn care has the Deployment's selector, so it
-- covers the pods too where it is left from an earlier attempt.
abbrev pub covered_with : Option Budget → Option Bool → Option Bool
covered_with b none = none
covered_with none (some other) = some other
covered_with (some b) (some other) = some true

abbrev pub birth_at : ℤ → Deployment → Bool → Bool → Birth
birth_at now d added pdb = record {
  time = now;
  uid = d.uid;
  revision = "";
  previous_revision = "";
  added_replica = added;
  has_pdb = pdb;
  rolled_back_to = "";
}

abbrev pub care_at : ℤ → Care
care_at now = record {
  tier = pos (care_tier (pos 0)).0;
  priority_class = (care_tier (pos 0)).1;
  until = now +ℤ pos newborn_care_duration;
  discharged = none;
  last_nag = none;
}

abbrev pub born_deployment : ℤ → Deployment → ℤ → Deployment
born_deployment now d n = record d {
  replicas = some n;
  paused = false;
  newborn_label = true;
  born = some now;
}

-- The last writes of a delivery, for the Deployment's replicas and the budget that is in place.
unfoldable pub bear : DeliverApi → ℤ → Status → Deployment → ℤ → Bool → Bool → Cluster → Pass
bear api now g d n added pdb k =
    if not api.updated
    then fails g k
    else succeeds
        (record g {
          birth = some (birth_at now d added pdb);
          care = some (care_at now);
          apgar = [];
          phase = newborn_care;
        })
        (record k { deployment = some (born_deployment now d n) })

unfoldable pub bear_covered :
    DeliverApi → ℤ → Status → Deployment → ℤ → Bool → Option Bool → Cluster → Pass
unfolding bear create_pdb
bear_covered api now g d n added none k = fails g k
bear_covered api now g d n added (some true) k = bear api now g d n added false k
bear_covered api now g d n added (some false) k =
    if not api.pdb_created then fails g k else bear api now g d n added true (create_pdb n k)

unfoldable pub bear_scaled :
    DeliverApi → ℤ → Spec → Status → Deployment → Option Bool → Cluster → Pass
unfolding bear_covered birth_replicas
bear_scaled api now s g d none k = fails g k
bear_scaled api now s g d (some auto) k =
    bear_covered api now g d (birth_replicas s d auto) (not auto)
      (covered_with k.budget api.covered) k

abbrev pub started_at : ℤ → Option ℤ → ℤ
started_at now none = now
started_at now (some t) = t

-- Still waiting for the placeholders to go.
abbrev pub waiting : ℤ → Option ℤ → ℕ → Bool
waiting now started held =
    ltb_ℤ (pos 0) (pos held) && ltb_ℤ (sub_time now (started_at now started)) placenta_grace

unfoldable pub deliver_to : DeliverApi → ℤ → Spec → Status → Option Deployment → Cluster → Pass
unfolding bear_scaled
deliver_to api now s g none k = succeeds g k
deliver_to api now s g (some d) k =
    if not d.usable_selector
    then succeeds g k
    else (if not api.annotated then fails g k else bear_scaled api now s g d api.autoscaled k)

unfoldable pub deliver_held : DeliverApi → ℤ → Spec → Status → Option ℕ → Cluster → Pass
unfolding deliver_to sub_time
deliver_held api now s g none k = fails g k
deliver_held api now s g (some held) k =
    let g' = record g { reserved = wrap32 (pos held); trimester = pos 0 } in
    if waiting now g.delivery_started held
    then succeeds g' k
    else deliver_to api now s g' k.deployment k

unfoldable pub deliver : DeliverApi → ℤ → String → Spec → Status → Cluster → Pass
unfolding deliver_held release_placenta
deliver api now uid s g k =
    let (k', held) = release_placenta api.placenta uid k in deliver_held api now s g held k'

-- endCare takes the extra replica and the label off a Deployment.
unfoldable pub end_care : Birth → Deployment → Deployment
unfolding ◌-ℤ◌
end_care b d =
    let kept =
      if b.added_replica && ltb_ℤ (pos 1) (replicas_of d.replicas)
      then some (wrap32 (replicas_of d.replicas -ℤ pos 1))
      else d.replicas in
    record d { replicas = kept; newborn_label = false }
