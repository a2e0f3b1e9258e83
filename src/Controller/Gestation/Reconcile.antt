-- ===== src/Controller/Gestation/Reconcile.antt =====
-- controller/gestation/controller.go: reconcile moves one gestation along.
pub mod Births
pub mod Lives
pub mod Valid
pub mod Afterwards
pub mod Progress
pub mod Lost
use kyvernetria.Controller.Gestation.State.{
  Phase, delivering, rolled_back, Spec, Birth, Status, Cluster, Pass,
}
use kyvernetria.Controller.Gestation.Birth.{DeliverApi, deliver}
use kyvernetria.Controller.Gestation.Score.{ScoreApi}
use kyvernetria.Controller.Gestation.Nursery.{CareApi, after_birth}
use kyvernetria.Controller.Gestation.Reserve.{ReserveApi, pregnancy}
use kyvernetria.Prelude.Int.{ℤ, ltb_ℤ, eqb_ℤ}
use kyvernetria.Prelude.{
  Bool, true, false, not, ◌&&◌, ◌||◌, List, [], String, Option, none, some, if◌then◌else◌,
}

-- Everything that one pass meets: the clock, the answers of the API, and the gestation's UID.
pub record Inputs : Type 0 where
  pub now : ℤ
  pub uid : String
  pub deployment_read : Bool
  pub deliver : DeliverApi
  pub score : ScoreApi
  pub care : CareApi
  pub reserve : ReserveApi

abbrev pub is_rolled_back : Phase → Bool
is_rolled_back rolled_back = true
is_rolled_back _ = false

abbrev pub is_none {ℓ} : {A : Type ℓ} → Option A → Bool
is_none none = true
is_none (some a) = false

-- A delivery is asked for by a larger number, and only before a birth or after a rollback.
unfoldable pub delivery_asked : Spec → Status → Bool
delivery_asked s g = ltb_ℤ g.delivery s.delivery && (is_none g.birth || is_rolled_back g.phase)

unfoldable pub begin_delivery : ℤ → Spec → Status → Status
unfolding delivery_asked
begin_delivery now s g =
    if delivery_asked s g
    then record g {
      delivery = s.delivery;
      delivery_started = some now;
      birth = none;
      apgar = [];
      care = none;
      phase = delivering;
    }
    else g

unfoldable pub unborn_or_born : Inputs → Spec → Option Birth → Status → Cluster → Pass
unfolding pregnancy after_birth
unborn_or_born i s none g k = pregnancy i.reserve i.uid i.now s g k
unborn_or_born i s (some b) g k = after_birth i.score i.care i.now s b g k.deployment k

-- The switch on phase and birth.
unfoldable pub dispatch : Inputs → Spec → Phase → Status → Cluster → Pass
unfolding deliver unborn_or_born
dispatch i s delivering g k = deliver i.deliver i.now i.uid s g k
dispatch i s _ g k = unborn_or_born i s g.birth g k

abbrev pub same_time : ℤ → Option ℤ → Bool
same_time r none = false
same_time r (some t) = eqb_ℤ t r

abbrev pub answered : Option ℤ → Status → Status
answered none g = g
answered (some r) g =
    if same_time r g.screened_request then g else record g { screened_request = some r }

-- A pass whose Deployment cannot be read ends before anything is done.
unfoldable pub reconcile : Inputs → Spec → Status → Cluster → Pass
unfolding begin_delivery dispatch
reconcile i s g k =
    if not i.deployment_read
    then record { status = g; cluster = k; failed = true }
    else (let g' = begin_delivery i.now s g in
        let p = dispatch i s g'.phase g' k in
        record p { status = answered s.screen_requested p.status })
