-- ===== src/Gestation/Screening/Summary.antt =====
-- kubernetes/overlay/pkg/kyvernetria/gestation/screening.go: the other checks, and all of them together.
use kyvernetria.Text.{Text, text_eq}
use kyvernetria.Gestation.Screening.{
  Finding, finding, Result, fail, warn, info, clear, reservation, deployment, image, probes,
  requests, disruption_budget, Template, Container, all_containers, Exists, screen_references,
}
use kyvernetria.Gestation.Screening.Room.{
  ResourceList, quantity_of, cpu, memory, screen_reservation, Lookup, Claims, screen_volumes, Quota,
  screen_quota,
}
use kyvernetria.Prelude.Int.{ℤ}
use kyvernetria.Prelude.{
  Bool, true, false, not, ◌&&◌, ◌||◌, List, [], ◌∷◌, ◌++◌, Option, none, some, keep, map,
}

abbrev pub if_any : Finding → List Text → List Finding
if_any f [] = []
if_any f (n ∷ ns) = record f { names = n ∷ ns } ∷ []

abbrev pub or_clear : Finding → List Finding → List Finding
or_clear f [] = f ∷ []
or_clear f (g ∷ gs) = g ∷ gs

abbrev pub names_without : (Container → Bool) → List Container → List Text
names_without has cs = map (λ (c : Container). c.name) (keep (λ c. not (has c)) cs)

-- screenProbes.
unfoldable pub screen_probes : Template → List Finding
screen_probes t = or_clear (finding probes clear []) (
    if_any (finding probes warn []) (names_without (λ c. c.readiness_probe) t.containers)
    ++ if_any (finding probes info []) (names_without (λ c. c.liveness_probe) t.containers))

abbrev pub is_set : Option ℤ → Bool
is_set none = false
is_set (some q) = true

abbrev pub states_requests : Container → Bool
states_requests c = is_set (quantity_of cpu c.requests) && is_set (quantity_of memory c.requests)

-- screenRequests.
unfoldable pub screen_requests : Template → List Finding
unfolding quantity_of
screen_requests t =
    or_clear (finding requests clear [])
      (if_any (finding requests warn []) (names_without states_requests t.containers))

-- A budget: its name, and whether its selector, where it has a usable one, matches the pods.
pub record Budget : Type 0 where
  pub name : Text
  pub usable : Bool
  pub matches : Bool

-- CoveringPDB; the empty text for none.
unfoldable pub covering_pdb : Text → List Budget → Text
covering_pdb skip [] = []
covering_pdb skip (b ∷ bs) = elim (text_eq b.name skip || not b.usable) [
  | true ↦ covering_pdb skip bs
  | false ↦ elim b.matches [ true ↦ b.name | false ↦ covering_pdb skip bs ]
]

-- screenPDB.
unfoldable pub screen_pdb : Option (List Budget) → List Finding
unfolding covering_pdb
screen_pdb none = finding disruption_budget info [] ∷ []
screen_pdb (some bs) = elim (text_eq (covering_pdb [] bs) []) [
  | false ↦ finding disruption_budget clear (covering_pdb [] bs ∷ []) ∷ []
  | true ↦ finding disruption_budget info [] ∷ []
]

-- What screening looks up; ParseSize has read the size, `none` for an error.
pub record Facts : Type 0 where
  pub secrets : Exists
  pub config_maps : Exists
  pub claims : Claims
  pub classes : Text → Lookup Text
  pub quotas : Option (List Quota)
  pub budgets : Option (List Budget)
  pub image_result : Text → Result

abbrev pub size_findings : ℤ → ResourceList → Facts → Option ResourceList → List Finding
size_findings replicas placenta l none = finding reservation fail [] ∷ []
size_findings replicas placenta l (some size) = screen_quota replicas size placenta l.quotas

abbrev pub reservation_findings : Template → Option ResourceList → List Finding
reservation_findings t none = []
reservation_findings t (some size) = screen_reservation t size

abbrev pub image_findings : Facts → List Container → List Finding
image_findings l cs =
    map (λ (c : Container). finding image (l.image_result c.image) (c.name ∷ [])) cs

abbrev pub template_findings : Facts → Option ResourceList → Option Template → List Finding
template_findings l size none = finding deployment info [] ∷ []
template_findings l size (some t) =
    finding deployment clear [] ∷ reservation_findings t size
    ++ image_findings l (all_containers t)
    ++ screen_references l.secrets l.config_maps t
    ++ screen_volumes l.claims l.classes t
    ++ screen_probes t
    ++ screen_requests t
    ++ screen_pdb l.budgets

-- Screen.
unfoldable pub screen :
    ℤ → Option ResourceList → ResourceList → Option Template → Facts → List Finding
unfolding screen_quota screen_reservation screen_references screen_volumes screen_probes
    screen_requests screen_pdb all_containers
screen replicas size placenta template l =
    size_findings replicas placenta l size ++ template_findings l size template

abbrev pub is_concern_result : Result → Bool
is_concern_result fail = true
is_concern_result warn = true
is_concern_result info = false
is_concern_result clear = false

unfoldable pub concerns : List Finding → List Finding
concerns fs = keep (λ f. is_concern_result f.result) fs

abbrev pub warning_of : List Finding → Bool × Option Finding
warning_of [] = (false, none)
warning_of (f ∷ fs) = (true, some f)

-- Summarize: whether it warns, and the finding that it says first.
unfoldable pub summarize : List Finding → Bool × Option Finding
unfolding concerns
summarize fs = warning_of (concerns fs)
