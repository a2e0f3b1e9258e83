-- ===== src/Admission/StartingDose.antt =====
-- admission/startingdose/admission.go: containers without requests get a small one to start with.
pub mod Doses
use kyvernetria.Text.{Text, codes}
use kyvernetria.Text.Split.{join}
use kyvernetria.Prelude.{
  Bool, true, false, not, ◌&&◌, ◌||◌, List, [], ◌∷◌, ◌++◌, String, Option, none, some,
  if◌then◌else◌, str_eq,
}

-- A ResourceList, in any order; the first entry of a name counts.
abbrev pub ResourceList : Type 0
ResourceList = List (String × String)

unfoldable pub lookup : String → ResourceList → Option String
lookup name [] = none
lookup name ((n, q) ∷ rest) = if str_eq n name then some q else lookup name rest

abbrev pub is_some {ℓ} : {A : Type ℓ} → Option A → Bool
is_some none = false
is_some (some a) = true

-- Setting an entry of a map.
unfoldable pub set : String → String → ResourceList → ResourceList
set name q rs = (name, q) ∷ rs

-- A container's name and what it states; a nil map and an empty one are the same list.
pub record Container : Type 0 where
  pub name : Text
  pub requests : ResourceList
  pub limits : ResourceList

-- What the plugin reads and writes of a pod: whether it has pod-level resources, its mirror annotation,
-- its containers and its starting-dose annotation.
pub record Pod : Type 0 where
  pub has_resources : Bool
  pub mirror : String
  pub init_containers : List Container
  pub containers : List Container
  pub dose : Option Text

-- Doses, under their names in ascending order.
unfoldable pub doses : ResourceList
doses = ("cpu", "50m") ∷ ("memory", "64Mi") ∷ []

unfoldable pub unstated : Container → String → Bool
unfolding lookup
unstated c name = not (is_some (lookup name c.requests)) && not (is_some (lookup name c.limits))

unfoldable pub missing_of : Container → ResourceList → ResourceList
unfolding unstated
missing_of c [] = []
missing_of c ((name, q) ∷ rest) = elim (unstated c name) [
  | true ↦ (name, q) ∷ missing_of c rest
  | false ↦ missing_of c rest
]

-- What a container states nothing about, with the doses.
unfoldable pub missing : Container → ResourceList
unfolding missing_of doses
missing c = missing_of c doses

unfoldable pub set_all : ResourceList → ResourceList → ResourceList
unfolding set
set_all [] rs = rs
set_all ((name, q) ∷ more) rs = set_all more (set name q rs)

abbrev pub names_of : ResourceList → List Text
names_of [] = []
names_of ((name, q) ∷ rest) = codes name ∷ names_of rest

-- The line of the annotation for one container: its name, "=" and the names joined by ",".
abbrev pub line_of : Container → ResourceList → Text
line_of c names = c.name ++ 61 ∷ join 44 (names_of names)

abbrev pub noted_line : Container → ResourceList → List Text
noted_line c [] = []
noted_line c (x ∷ xs) = line_of c (x ∷ xs) ∷ []

unfoldable pub dose_container : Container → Container
unfolding set_all missing
dose_container c = record c { requests = set_all (missing c) c.requests }

unfoldable pub dose_all : List Container → List Container
unfolding dose_container
dose_all [] = []
dose_all (c ∷ cs) = dose_container c ∷ dose_all cs

unfoldable pub lines : List Container → List Text
unfolding missing join
lines [] = []
lines (c ∷ cs) = noted_line c (missing c) ++ lines cs

abbrev pub nonempty {ℓ} : {A : Type ℓ} → List A → Bool
nonempty [] = false
nonempty (x ∷ xs) = true

unfoldable pub any_missing : List Container → Bool
unfolding missing
any_missing [] = false
any_missing (c ∷ cs) = nonempty (missing c) || any_missing cs

-- Pods that are never dosed.
abbrev pub exempt : Pod → Bool
exempt pod = pod.has_resources || not (str_eq pod.mirror "")

-- NeedsDose; `visit` runs over the init containers and then the regular ones.
unfoldable pub needs_dose : Pod → Bool
unfolding any_missing
needs_dose pod =
    if exempt pod then false else any_missing pod.init_containers || any_missing pod.containers

abbrev pub note : List Text → Option Text → Option Text
note [] old = old
note (l ∷ ls) old = some (join 59 (l ∷ ls))

-- Dose, with the flag that it returns.
unfoldable pub dose : Pod → Pod × Bool
unfolding dose_all lines join
dose pod = if exempt pod then (pod, false) else (
  record pod {
    init_containers = dose_all pod.init_containers;
    containers = dose_all pod.containers;
    dose = note (lines pod.init_containers ++ lines pod.containers) pod.dose;
  },
  nonempty (lines pod.init_containers ++ lines pod.containers),
)

-- What the caches and the API server say of the namespace: its dosing label where it is known.
pub data Namespace : Type 0 where
  not_ready unreadable missing_namespace : Namespace
  labelled : String → Namespace

-- Admit for a new pod; `none` is a refusal.
unfoldable pub admit_pod : Namespace → Pod → Option Pod
unfolding needs_dose dose
admit_pod ns pod = if not (needs_dose pod) then some pod else elim ns [
  | not_ready ↦ none
  | unreadable ↦ none
  | missing_namespace ↦ some pod
  | labelled label ↦ if str_eq label "start-low" then some (dose pod).0 else some pod
]
