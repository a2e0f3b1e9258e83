-- ===== src/Gestation/Screening.antt =====
-- kubernetes/overlay/pkg/kyvernetria/gestation/screening.go: what a pod template is looked at for. The checks
-- of the room are in Screening/Room, and the whole screening in Screening/Summary.
pub mod Needs
pub mod Names
pub mod Room
pub mod Summary
pub mod Quotas
pub mod Silent
mod Examples
use kyvernetria.Text.{Text, codes, text_eq, text_ltb}
use kyvernetria.Prelude.Int.{ℤ}
use kyvernetria.Prelude.Sort.{sort_by}
use kyvernetria.Prelude.{
  Bool, true, false, not, ◌&&◌, ◌||◌, List, [], ◌∷◌, ◌++◌, Option, none, some, any, keep, map,
}

pub data Result : Type 0 where
  fail : Result
  warn : Result
  info : Result
  clear : Result

pub data Check : Type 0 where
  reservation : Check
  deployment : Check
  image : Check
  references : Check
  volumes : Check
  quota : Check
  probes : Check
  requests : Check
  disruption_budget : Check

-- A finding; `names` are what its message lists.
pub record Finding : Type 0 where
  pub check : Check
  pub result : Result
  pub names : List Text

abbrev pub finding : Check → Result → List Text → Finding
finding c r ns = record { check = c; result = r; names = ns }

-- A reference to a Secret or a ConfigMap.
pub record Ref : Type 0 where
  pub name : Text
  pub optional : Option Bool

-- An environment variable or a source of them, or a projected volume's: to a Secret, to a ConfigMap.
pub record Source : Type 0 where
  pub secret : Option Ref
  pub config_map : Option Ref

-- A claim of storage: the class, and the requested size.
pub record Claim : Type 0 where
  pub class : Option Text
  pub size : Option ℤ

pub record Volume : Type 0 where
  pub name : Text
  pub refs : Source
  pub projected : List Source
  pub claim_name : Option Text
  pub ephemeral : Option Claim

pub record Container : Type 0 where
  pub name : Text
  pub image : Text
  pub env_from : List Source
  pub env : List Source
  pub requests : List (Text × ℤ)
  pub readiness_probe : Bool
  pub liveness_probe : Bool

pub record Template : Type 0 where
  pub image_pull_secrets : List Text
  pub volumes : List Volume
  pub init_containers : List Container
  pub containers : List Container

-- allContainers.
unfoldable pub all_containers : Template → List Container
all_containers t = t.init_containers ++ t.containers

abbrev pub is_optional : Option Bool → Bool
is_optional none = false
is_optional (some b) = b

-- The name of a reference, unless there is none or it is optional.
abbrev pub required : Option Ref → List Text
required none = []
required (some r) = elim (is_optional r.optional) [ true ↦ [] | false ↦ r.name ∷ [] ]

unfoldable pub all_required : (Source → Option Ref) → List Source → List Text
all_required f [] = []
all_required f (s ∷ ss) = required (f s) ++ all_required f ss

unfoldable pub volume_names : (Source → Option Ref) → List Volume → List Text
unfolding all_required
volume_names f [] = []
volume_names f (v ∷ vs) = (required (f v.refs) ++ all_required f v.projected) ++ volume_names f vs

unfoldable pub container_names : (Source → Option Ref) → List Container → List Text
unfolding all_required
container_names f [] = []
container_names f (c ∷ cs) =
    (all_required f c.env_from ++ all_required f c.env) ++ container_names f cs

unfoldable pub has_name : Text → List Text → Bool
has_name n ns = any (text_eq n) ns

-- The keys of a map that is filled in this order.
unfoldable pub distinct_names : List Text → List Text
unfolding has_name
distinct_names [] = []
distinct_names (n ∷ ns) =
    let rest = distinct_names ns in elim (has_name n rest) [ true ↦ rest | false ↦ n ∷ rest ]

-- sortedKeys.
unfoldable pub sorted_keys : List Text → List Text
unfolding distinct_names sort_by text_ltb
sorted_keys ns = sort_by text_ltb (keep (λ n. not (text_eq n [])) (distinct_names ns))

-- References: the Secrets, and the ConfigMaps.
unfoldable pub secret_names : Template → List Text
unfolding sorted_keys volume_names container_names all_containers
secret_names t = sorted_keys (
    t.image_pull_secrets
    ++ volume_names (λ s. s.secret) t.volumes
    ++ container_names (λ s. s.secret) (all_containers t))

unfoldable pub config_map_names : Template → List Text
unfolding sorted_keys volume_names container_names all_containers
config_map_names t = sorted_keys (
    volume_names (λ s. s.config_map) t.volumes
    ++ container_names (λ s. s.config_map) (all_containers t))

-- Whether an object exists, `none` for an error.
abbrev pub Exists : Type 0
Exists = Text → Option Bool

abbrev pub is_missing : Option Bool → Bool
is_missing none = false
is_missing (some b) = not b

abbrev pub is_error : Option Bool → Bool
is_error none = true
is_error (some b) = false

unfoldable pub missing_names : Exists → List Text → List Text
missing_names exists ns = keep (λ n. is_missing (exists n)) ns

unfoldable pub unread_names : Exists → List Text → List Text
unread_names exists ns = keep (λ n. is_error (exists n)) ns

abbrev pub judged_references : List Text → List Text → List Text → List Finding
judged_references (m ∷ ms) errs all = finding references fail (m ∷ ms) ∷ []
judged_references [] (e ∷ es) all = finding references info (e ∷ es) ∷ []
judged_references [] [] all = finding references clear all ∷ []

-- screenReferences.
unfoldable pub screen_references : Exists → Exists → Template → List Finding
unfolding secret_names config_map_names missing_names unread_names
screen_references secret_exists config_map_exists t =
    judged_references
      (missing_names secret_exists (secret_names t)
        ++ missing_names config_map_exists (config_map_names t))
      (unread_names secret_exists (secret_names t)
        ++ unread_names config_map_exists (config_map_names t))
      (secret_names t ++ config_map_names t)
