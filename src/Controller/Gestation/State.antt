-- ===== src/Controller/Gestation/State.antt =====
-- gestation/types.go, and what a pass of controller/gestation/ reads and writes: the status of a
-- gestation, the Deployment that it is about, and the disruption budget of newborn care. Texts of
-- messages are left out.
use kyvernetria.Gestation.Apgar.{Apgar}
use kyvernetria.Gestation.Care.{Annotations, Caregivers}
use kyvernetria.Prelude.Int.{ℤ, pos}
use kyvernetria.Prelude.{Bool, true, false, List, String, Option, none, some}

pub data Phase : Type 0 where
  unset expecting due delivering newborn_care needs_caregivers grown rolled_back departed : Phase

-- auto_rollback, delivery and the requests for screening are those of the Spec.
pub record Spec : Type 0 where
  pub replicas : ℤ
  pub screen_requested : Option ℤ
  pub delivery : ℤ
  pub auto_rollback : Option Bool

pub record Birth : Type 0 where
  pub time : ℤ
  pub uid : String
  pub revision : String
  pub previous_revision : String
  pub added_replica : Bool
  pub has_pdb : Bool
  pub rolled_back_to : String

pub record Care : Type 0 where
  pub tier : ℤ
  pub priority_class : String
  pub until : ℤ
  pub discharged : Option ℤ
  pub last_nag : Option ℤ

pub record Status : Type 0 where
  pub phase : Phase
  pub trimester : ℤ
  pub reserved : ℤ
  pub delivery : ℤ
  pub delivery_started : Option ℤ
  pub screened_trimester : ℤ
  pub screened_request : Option ℤ
  pub birth : Option Birth
  pub apgar : List Apgar
  pub care : Option Care
  pub caregivers : Option Caregivers

-- The parts of a Deployment that the controller reads or writes. A template stands for itself without
-- its pod-template-hash label.
pub record Deployment : Type 0 where
  pub uid : String
  pub replicas : Option ℤ
  pub paused : Bool
  pub newborn_label : Bool
  pub born : Option ℤ
  pub usable_selector : Bool
  pub template : String
  pub annotations : Annotations
  pub settled : Bool

-- A ReplicaSet of the Deployment: its revision annotation and its template.
pub record ReplicaSet : Type 0 where
  pub revision : String
  pub template : String

-- The PodDisruptionBudget <name>-newborn, and whether it still carries the controller's label.
pub record Budget : Type 0 where
  pub min_available : ℤ
  pub managed : Bool

-- The placeholder Deployment: the UID of its controller, its replicas and its template's hash.
pub record Placenta : Type 0 where
  pub owner : Option String
  pub replicas : Option ℤ
  pub hash : String

-- What one gestation is about in the cluster.
pub record Cluster : Type 0 where
  pub placenta : Option Placenta
  pub deployment : Option Deployment
  pub budget : Option Budget

-- The end of a step: status, cluster, and whether it returned an error.
pub record Pass : Type 0 where
  pub status : Status
  pub cluster : Cluster
  pub failed : Bool

abbrev pub fails : Status → Cluster → Pass
fails g k = record { status = g; cluster = k; failed = true }

abbrev pub succeeds : Status → Cluster → Pass
succeeds g k = record { status = g; cluster = k; failed = false }

-- RollbackEnabled.
unfoldable pub rollback_enabled : Spec → Bool
rollback_enabled s = elim s.auto_rollback [ none ↦ true | some b ↦ b ]

abbrev pub in_care_phase : Phase → Bool
in_care_phase newborn_care = true
in_care_phase needs_caregivers = true
in_care_phase _ = false

abbrev pub when_some {ℓ} : {A : Type ℓ} → Option A → Bool → Bool
when_some none b = false
when_some (some a) b = b

unfoldable pub in_care : Status → Bool
in_care g = when_some g.care (in_care_phase g.phase)

-- ptr.Deref(d.Spec.Replicas, 1).
abbrev pub replicas_of : Option ℤ → ℤ
replicas_of none = pos 1
replicas_of (some n) = n
