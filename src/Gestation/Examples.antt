-- ===== src/Gestation/Examples.antt =====
-- The theorems on gestation/ at concrete plans, launches and services.
use kyvernetria.Gestation.Apgar.{Signs, next_minute}
use kyvernetria.Gestation.Apgar.Schedule.{visits, visits_end}
use kyvernetria.Gestation.Care.{Annotations, caregivers_of, equal_fold, fold, judge_caregivers}
use kyvernetria.Text.{Text, codes}
use kyvernetria.Text.Fields.{is_space, trim_space, trim_left}
use kyvernetria.Prelude.Int.{pos}
use kyvernetria.Prelude.{ℕ, ◌≤◌, ◌≡◌, refl, true, false, [], String, length, str_eq, if◌then◌else◌}

-- Half of the replicas are up, one of them was killed, and there are warnings.
abbrev troubled : Signs
troubled = record {
  desired = pos 4;
  ready = pos 2;
  running = pos 3;
  restarts = pos 1;
  crash_looping = false;
  liveness_failures = pos 0;
  warnings = pos 5;
  services = pos 1;
  ready_endpoint = pos 2;
  oom_kills = pos 1;
  evictions = pos 0;
}

visits_end_example :
    (length (visits (λ m. troubled) 4) ≤ 5) × (next_minute (visits (λ m. troubled) 6) ≡ pos 0)
visits_end_example = visits_end (λ m. troubled) 4

abbrev third_revision : String
third_revision = "3"

abbrev plain : ℕ → ℕ
plain c = c

abbrev people_of : Text → Text → Annotations
people_of p s name =
    if str_eq name "kyvernetria.io/primary-caregiver"
    then p
    else (if str_eq name "kyvernetria.io/secondary-caregiver" then s else [])

abbrev two_people : Annotations
two_people = people_of (codes "anna ") (codes "bob")

two_people-accepted : (caregivers_of plain two_people).1.0 ≡ true
unfolding caregivers_of judge_caregivers equal_fold fold trim_space trim_left is_space
two_people-accepted = refl
