-- ===== src/Admission/Examples.antt =====
-- The theorems on admission/ at concrete requests and pods.
use kyvernetria.Admission.NoBruteForce.{
  Operation, create, update, delete, allowed, Attributes, Cached, not_ready, absent, found,
  forbidden, Components, is_cluster_component, validate,
}
use kyvernetria.Admission.NoBruteForce.Refusals.{Deletes, Evicts, validate-forbidden_iff}
use kyvernetria.Admission.NoBruteForce
use kyvernetria.Admission.StartingDose
use kyvernetria.Admission.StartingDose.{Container, dose_container, needs_dose, dose, lookup}
use kyvernetria.Admission.StartingDose.Doses.{stated}
use kyvernetria.Admission.NewbornCare
use kyvernetria.Admission.NewbornCare.{Kube, Selector, admit}
use kyvernetria.Admission.NewbornCare.Classes.{Admitted, NamesItself, admit-Admitted}
use kyvernetria.Admission.Immunity
use kyvernetria.Admission.Antigens
use kyvernetria.Admission.Antigens.{antigens, floating_tag}
use kyvernetria.Admission.Immunity.{has, new_antigens, converted, looked_at, is_self}
use kyvernetria.Admission.Immunity.Harmless.{Harmless}
use kyvernetria.Admission.Immunity.Creation.{IsSelf, validate-create_allowed_iff}
use kyvernetria.Admission.Immunity.Tolerance.{validate-same}
use kyvernetria.Gestation.Care
use kyvernetria.Text.{Text}
use kyvernetria.Text.{codes}
use kyvernetria.Prelude.Int.{pos}
use kyvernetria.Prelude.{
  Bool, String, Option, ℕ, sym, ap, ◌∙◌, str_eq, str_eq_iff, if◌then◌else◌, ◌≡◌, ◌⊎◌, ◌↔◌, refl,
  true, false, [], ◌∷◌, none, some,
}

abbrev serving : NoBruteForce.Pod
serving = record {
  node_name = "n1";
  phase = NoBruteForce.running;
  terminating = false;
  annotations = λ name. "";
}

abbrev components : Components
components = record {
  garbage_collector = "system:serviceaccount:kube-system:pod-garbage-collector";
  controller_manager = "system:kube-controller-manager";
  scheduler = "system:kube-scheduler";
  api_server = "system:apiserver";
}

abbrev forced_delete : Attributes
forced_delete = record {
  pods = true;
  operation = delete;
  subresource = "";
  options = some (record { grace_period = some (pos 0) });
  eviction = none;
  old_pod = some serving;
  user = some "anna";
}

validate-forbidden_iff_example : (validate components absent forced_delete ≡ forbidden) ↔ (
    (true ≡ true)
    × (is_cluster_component components (some "anna") ≡ false)
    × (Deletes delete forced_delete ⊎ Evicts absent delete forced_delete))
validate-forbidden_iff_example = validate-forbidden_iff components absent forced_delete

abbrev bare : Container
bare = record { name = codes "web"; requests = ("cpu", "1") ∷ []; limits = [] }

abbrev young : StartingDose.Pod
young = record {
  has_resources = false;
  mirror = "";
  init_containers = [];
  containers = bare ∷ [];
  dose = none;
}

bare-states : stated bare "cpu" ≡ true
unfolding lookup
bare-states = refl

abbrev first_tier : NewbornCare.PriorityClass
first_tier = record { name = "kyvernetria-newborn-1"; value = pos 1000; global_default = false }

abbrev one_class : String → Option NewbornCare.PriorityClass
one_class name = if str_eq name "kyvernetria-newborn-1" then some first_tier else none

abbrev kube : Kube
kube = record {
  parse = λ selector. some (record { is_empty = false; matches = λ labels. true });
  get = one_class;
  list = some (first_tier ∷ []);
}

one_class-name :
    (name : String) (b : Bool) (class : NewbornCare.PriorityClass)
    → str_eq name "kyvernetria-newborn-1" ≡ b
    → (if b then some first_tier else none) ≡ some class
    → class.name ≡ name
one_class-name name true class e h =
    ap (λ o. name_or o) (sym h) ∙ sym ((str_eq_iff name "kyvernetria-newborn-1").0 e)
  where
    name_or : Option NewbornCare.PriorityClass → String
    name_or none = ""
    name_or (some c) = c.name
one_class-name name false class e h = absurd (cc h)

kube-NamesItself : NamesItself kube
kube-NamesItself name class h = one_class-name name _ class refl h

abbrev unclassed : NewbornCare.Pod
unclassed = record {
  class_name = "";
  priority = none;
  mirror = "";
  labels = λ name. [];
  newborn_care = none;
}

abbrev newborns : Care.Newborns
newborns =
    Care.listed
      (record { selector = codes "app=web"; priority_class = "kyvernetria-newborn-1" } ∷ [])

admit-Admitted_example :
    Admitted kube unclassed (admit kube (NewbornCare.annotated newborns) unclassed)
admit-Admitted_example =
    admit-Admitted kube (NewbornCare.annotated newborns) unclassed kube-NamesItself

abbrev plain : ℕ → ℕ
plain c = c

abbrev harmless : Antigens.Pod
harmless = record {
  host_network = false;
  host_pid = false;
  host_ipc = false;
  volumes = [];
  context = none;
  init_containers = [];
  containers = [];
  ephemeral_containers = [];
  app_armor_of = λ name. [];
}

abbrev invasive : Antigens.Pod
invasive = record harmless { host_network = true; host_pid = true }

abbrev foreign : Immunity.Namespace
foreign = record { name = "shop"; ready = true; label = Immunity.missing }

abbrev pod_update : Immunity.Attributes
pod_update = record {
  pods = true;
  subresource = "";
  operation = update;
  object = converted invasive;
  old_object = converted invasive;
}

validate-same_example : Immunity.validate plain foreign pod_update ≡ allowed
validate-same_example = validate-same plain foreign pod_update invasive refl refl refl

abbrev pod_create : Immunity.Attributes
pod_create = record pod_update { operation = create; old_object = Immunity.absent }

validate-create_allowed_iff_example :
    (Immunity.validate plain foreign pod_create ≡ allowed)
    ↔ (Harmless plain invasive ⊎ ((true ≡ true) × IsSelf foreign))
validate-create_allowed_iff_example =
    validate-create_allowed_iff plain foreign pod_create invasive refl refl refl refl

abbrev local_image : Text
local_image = codes "host:5000/web"

abbrev version : Text
version = codes "v1"
