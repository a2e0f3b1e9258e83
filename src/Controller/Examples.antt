-- ===== src/Controller/Examples.antt =====
-- The theorems on controller/gestation/ at a concrete gestation that is due.
use kyvernetria.Text.Table.{value_at}
use kyvernetria.Controller.Gestation.State.{
  delivering, grown, newborn_care, Spec, Birth, Status, Deployment, Cluster, replicas_of,
}
use kyvernetria.Controller.Gestation.Birth.{
  born_deployment, birth_at, birth_replicas, care_at, end_care, delete_pdb,
}
use kyvernetria.Controller.Gestation.Nursery.{CareApi, care_for, tend, discharge}
use kyvernetria.Controller.Gestation.Nursery.Discharge.{care_for-grown, discharge-replicas}
use kyvernetria.Controller.Gestation.Reconcile.{Inputs, reconcile, delivery_asked}
use kyvernetria.Controller.Gestation.Reconcile.Lost.{Lost, reconcile-Lost}
use kyvernetria.Controller.Gestation.Reconcile.Valid.{Valid, rank}
use kyvernetria.Controller.Gestation.Reconcile.Progress.{reconcile-Valid, reconcile-rank_mono}
use kyvernetria.Gestation.Care.{
  Annotations, caregivers_of, newborn_care_duration, judge_caregivers, equal_fold, fold, care_tier,
  tier_from, care_tiers,
}
use kyvernetria.Controller.Gestation.Remembering.{Memory, Kept, put_living, put_living-keeps}
use kyvernetria.Gestation.Memory.{Record, key_of, bounded, trim}
use kyvernetria.Gestation.Memory.Codec.{lengths, lengths_law}
use kyvernetria.Gestation.Pregnancy.{sub_time}
use kyvernetria.Text.{codes}
use kyvernetria.Text.Fields.{is_space, trim_space, trim_left}
use kyvernetria.Prelude.Int.{ℤ, pos, ◌≤ℤ◌}
use kyvernetria.Prelude.{
  ◌≤◌, ◌≡◌, refl, true, false, not, [], ◌∷◌, none, some, arith, str_eq, if◌then◌else◌,
}

abbrev named : Annotations
named name =
    if str_eq name "kyvernetria.io/primary-caregiver"
    then codes "anna"
    else (if str_eq name "kyvernetria.io/secondary-caregiver" then codes "bob" else [])

abbrev web : Deployment
web = record {
  uid = "u1";
  replicas = some (pos 2);
  paused = true;
  newborn_label = false;
  born = none;
  usable_selector = true;
  template = "t1";
  annotations = named;
  settled = true;
}

abbrev plan : Spec
plan = record { replicas = pos 3; screen_requested = none; delivery = pos 1; auto_rollback = none }

-- Asked to deliver, with a third of the room still held.
abbrev asked_for : Status
asked_for = record {
  phase = delivering;
  trimester = pos 3;
  reserved = pos 4;
  delivery = pos 1;
  delivery_started = some (pos 0);
  screened_trimester = pos 3;
  screened_request = none;
  birth = none;
  apgar = [];
  care = none;
  caregivers = none;
}

abbrev world : Cluster
world = record { placenta = none; deployment = some web; budget = none }

abbrev inputs : Inputs
inputs = record {
  now = pos 1000;
  uid = "g1";
  deployment_read = true;
  deliver = record {
    placenta = record { read = true; deleted = true; held = 0 };
    annotated = true;
    autoscaled = some false;
    covered = some false;
    pdb_created = true;
    updated = true;
  };
  score = record { replica_sets = some []; signs = none; updated = true; pdb_deleted = true };
  care = record { discharged = true; pdb_deleted = true; wide = λ c. c };
  reserve = record {
    read = true;
    written = true;
    created_at = pos 0;
    due_at = some (pos 900);
    size_ok = true;
    hash = "h";
  };
}

reconcile-Valid_example : Valid (reconcile inputs plan asked_for world).status
reconcile-Valid_example = reconcile-Valid inputs plan asked_for world (refl, refl)

not_asked : delivery_asked plan asked_for ≡ false
unfolding delivery_asked
not_asked = refl

reconcile-rank_mono_example :
    rank delivering ≤ rank (reconcile inputs plan asked_for world).status.phase
reconcile-rank_mono_example = reconcile-rank_mono inputs plan asked_for world (refl, refl) not_asked

-- A newborn with an extra replica and a budget that cannot be deleted at first.
abbrev extra : Birth
extra = birth_at (pos 1000) web (not false) true

abbrev nursed : Status
nursed = record asked_for {
  phase = newborn_care;
  birth = some extra;
  care = some (care_at (pos 1000));
}

abbrev stuck : CareApi
stuck = record { discharged = true; pdb_deleted = false; wide = λ c. c }

discharge-replicas_example :
    let born = born_deployment (pos 1000) web (birth_replicas plan web false) in
    let once = end_care extra born in
    let pass = discharge stuck (pos 2000) extra (care_at (pos 1000)) nursed born world in
    let next =
      discharge inputs.care (pos 3000) extra (care_at (pos 1000)) nursed once pass.cluster in
    (true ≡ false → (pass.cluster ≡ world) × (pass.status ≡ nursed) × (pass.failed ≡ true))
    × (true ≡ true
        → (pass.cluster.deployment ≡ some once)
          × (replicas_of once.replicas ≡ pos 2)
          × (once.newborn_label ≡ false)
          × (true ≡ false → (pass.status.phase ≡ grown) × (pass.failed ≡ false))
          × (true ≡ true
              → (pass.status ≡ nursed)
                × (pass.failed ≡ true)
                × (next.cluster.deployment ≡ some (end_care extra once))
                × (replicas_of (end_care extra once).replicas ≡ pos 1)))
discharge-replicas_example =
    discharge-replicas stuck inputs.care plan web (pos 1000) (pos 2000) (pos 3000) false true 2
      (care_at (pos 1000)) nursed world refl (omega arith) (omega arith) refl refl

-- A newborn after its three days.
abbrev ripe : Status
ripe = record asked_for {
  phase = newborn_care;
  birth = some (birth_at (pos 0) web true false);
  care = some (care_at (pos 0));
}

abbrev later : ℤ
later = pos newborn_care_duration

ripe-grown :
    (care_for inputs.care later
      (birth_at (pos 0) web true false)
      (care_at (pos 0))
      ripe
      web
      world).status.phase
    ≡ grown
unfolding care_for tend discharge delete_pdb caregivers_of judge_caregivers equal_fold fold
    trim_space trim_left is_space care_tier tier_from care_tiers sub_time
ripe-grown = refl

care_for-grown_example :
    ((caregivers_of (λ c. c) named).1.0 ≡ true)
    × (pos newborn_care_duration ≤ℤ sub_time later (pos 0))
care_for-grown_example =
    care_for-grown inputs.care later (birth_at (pos 0) web true false) (care_at (pos 0)) ripe web
      world ripe-grown

-- A newborn whose rollback failed at its last step, and that is asked for another delivery.
abbrev lost : Status
lost = record ripe { care = none }

abbrev next_plan : Spec
next_plan = record plan { delivery = pos 2 }

reconcile-Lost_example : Lost (reconcile inputs next_plan lost world).status
reconcile-Lost_example =
    reconcile-Lost inputs next_plan (birth_at (pos 0) web true false) lost world refl refl refl

-- A service on record, and what the next pass knows of it.
abbrev on_record : Record
on_record = record {
  scope = codes "shop";
  name = codes "web";
  uid = codes "u1";
  born = codes "2026-01-01";
  left = [];
  owners = [];
  dependencies = [];
  config_digest = [];
}

abbrev seen_again : Record
seen_again = record on_record { born = codes "2026-02-02"; owners = codes "anna" ∷ [] }

abbrev remembered_once : Memory
remembered_once = record {
  content = (codes "shop.web.u1", lengths.marshal on_record) ∷ [];
  changed = false;
}

put_living-keeps_example :
    Kept lengths seen_again on_record (put_living lengths remembered_once seen_again)
unfolding bounded trim key_of value_at
put_living-keeps_example =
    put_living-keeps lengths lengths_law remembered_once seen_again on_record
      ((refl, tt), ((on_record, lengths_law _, refl, refl, tt), tt)) (omega arith) refl refl
      (lengths.marshal on_record, refl, lengths_law _) refl refl
