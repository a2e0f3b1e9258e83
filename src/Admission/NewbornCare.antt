-- ===== src/Admission/NewbornCare.antt =====
-- admission/newborncare/admission.go: new pods of a newborn service get the priority class of its tier.
pub mod Classes
use kyvernetria.Gestation.Care.{NewbornEntry, Newborns, decode_newborns, is_newborn_class}
use kyvernetria.Text.{Text}
use kyvernetria.Prelude.Int.{ℤ, leb_ℤ}
use kyvernetria.Prelude.{
  Bool, true, false, not, ◌&&◌, ◌||◌, List, [], ◌∷◌, String, Option, none, some, if◌then◌else◌, any,
  str_eq,
}

abbrev pub Labels : Type 0
Labels = String → Text

-- A label selector of Kubernetes, by its methods Empty and Matches.
pub record Selector : Type 0 where
  pub is_empty : Bool
  pub matches : Labels → Bool

pub record PriorityClass : Type 0 where
  pub name : String
  pub value : ℤ
  pub global_default : Bool

-- What Kubernetes answers: labels.Parse, and the lister of priority classes; `none` is an error.
pub record Kube : Type 0 where
  pub parse : Text → Option Selector
  pub get : String → Option PriorityClass
  pub list : Option (List PriorityClass)

-- What the plugin reads and writes of a pod.
pub record Pod : Type 0 where
  pub class_name : String
  pub priority : Option ℤ
  pub mirror : String
  pub labels : Labels
  pub newborn_care : Option String

abbrev pub selects : Option Selector → Labels → Bool
selects none labels = false
selects (some s) labels = not s.is_empty && s.matches labels

-- A global default that is as high as the class.
abbrev pub outranks : PriorityClass → PriorityClass → Bool
outranks class other = other.global_default && leb_ℤ class.value other.value

abbrev pub above_default : PriorityClass → Option (List PriorityClass) → String
above_default class none = ""
above_default class (some others) = if any (outranks class) others then "" else class.name

abbrev pub class_if : Option PriorityClass → Option (List PriorityClass) → String
class_if none others = ""
class_if (some class) others = above_default class others

-- The loop of classFor: entries of other classes and those that do not select the pod are passed over.
unfoldable pub first_class : Kube → Labels → List NewbornEntry → String
unfolding is_newborn_class
first_class kube labels [] = ""
first_class kube labels (e ∷ es) =
    elim (is_newborn_class e.priority_class && selects (kube.parse e.selector) labels) [
      | true ↦ class_if (kube.get e.priority_class) kube.list
      | false ↦ first_class kube labels es
    ]

abbrev pub class_among_decoded : Kube → Labels → Option (List NewbornEntry) → String
class_among_decoded kube labels none = ""
class_among_decoded kube labels (some es) = first_class kube labels es

unfoldable pub class_for : Kube → Newborns → Labels → String
unfolding first_class decode_newborns
class_for kube raw labels = class_among_decoded kube labels (decode_newborns raw)

-- What the caches and the API server say of the namespace's annotation.
pub data Namespace : Type 0 where
  not_ready unreadable : Namespace
  annotated : Newborns → Namespace

-- A pod that has a class or a priority already, or that mirrors a static pod.
abbrev pub settled : Pod → Option ℤ → Bool
settled pod none = not (str_eq pod.class_name "") || not (str_eq pod.mirror "")
settled pod (some p) = true

abbrev pub protect : String → Pod → Pod
protect class pod =
    if str_eq class "" then pod else record pod { class_name = class; newborn_care = some class }

unfoldable pub admit_in : Kube → Namespace → Pod → Pod
unfolding class_for
admit_in kube not_ready pod = pod
admit_in kube unreadable pod = pod
admit_in kube (annotated raw) pod = protect (class_for kube raw pod.labels) pod

-- Admit for a new pod. It never refuses one.
unfoldable pub admit : Kube → Namespace → Pod → Pod
unfolding admit_in
admit kube ns pod = if settled pod pod.priority then pod else admit_in kube ns pod
