-- ===== src/Admission/Immunity.antt =====
-- admission/immunity/admission.go: pods that reach into the node are refused outside self namespaces.
pub mod Tolerance
pub mod Harmless
pub mod Creation
use kyvernetria.Admission.Antigens.{Antigen, Pod, antigens}
use kyvernetria.Admission.NoBruteForce.{
  Operation, create, update, Verdict, allowed, forbidden, internal_error,
}
use native.Mathlib.Decide.{ℕ_discrete}
use kyvernetria.Text.{Text, codes, text_eq}
use kyvernetria.Text.Split.{has_prefix}
use kyvernetria.Prelude.Int.{ℤ, pos, eqb_ℤ}
use kyvernetria.Prelude.{
  ℕ, ◌-◌, Bool, true, false, not, ◌&&◌, ◌||◌, List, [], ◌∷◌, ◌++◌, String, Option, none, some,
  if◌then◌else◌, any, keep, drop, leb, ltb, ◌==◌, str_eq,
}

-- The equality of two findings is that of their messages.
unfoldable pub Antigen_discrete : Discrete Antigen
Antigen_discrete = hlevel ℕ_discrete

abbrev pub is_yes {ℓ} : {A : Type ℓ} → Dec A → Bool
is_yes (yes a) = true
is_yes (no n) = false

unfoldable pub has : Antigen → List Antigen → Bool
has a [] = false
has a (b ∷ bs) = is_yes (Antigen_discrete a b) || has a bs

unfoldable pub new_antigens : (ℕ → ℕ) → Option Pod → Pod → List Antigen
unfolding antigens has
new_antigens wide none pod = antigens wide pod
new_antigens wide (some old) pod = keep (λ a. not (has a (antigens wide old))) (antigens wide pod)

-- What toV1 makes of an object.
pub data Object : Type 0 where
  absent unconvertible : Object
  converted : Pod → Object

pub record Attributes : Type 0 where
  pub pods : Bool
  pub subresource : String
  pub operation : Operation
  pub object : Object
  pub old_object : Object

-- The namespace's self label as the cache or the API server gives it.
pub data Label : Type 0 where
  missing unreadable : Label
  labelled : String → Label

pub record Namespace : Type 0 where
  pub name : String
  pub ready : Bool
  pub label : Label

unfoldable pub self_namespace : String → Bool
self_namespace name =
    (str_eq name "kube-system" || str_eq name "kube-public")
    || (str_eq name "kube-node-lease" || str_eq name "local-path-storage")

abbrev pub is_self_by : Label → Option Bool
is_self_by missing = some false
is_self_by unreadable = none
is_self_by (labelled l) = some (str_eq l "true")

-- isSelf; `none` is an error.
unfoldable pub is_self : Namespace → Option Bool
unfolding self_namespace
is_self ns = if self_namespace ns.name then some true else is_self_by ns.label

abbrev pub tolerated : Option Bool → Verdict
tolerated (some true) = allowed
tolerated _ = forbidden

-- The end of Validate, for the antigens that are new.
unfoldable pub judge_antigens : Namespace → List Antigen → Verdict
unfolding is_self
judge_antigens ns [] = allowed
judge_antigens ns (a ∷ rest) = if ns.ready then tolerated (is_self ns) else forbidden

abbrev pub is_update : Operation → Bool
is_update update = true
is_update _ = false

abbrev pub judge_update : (ℕ → ℕ) → Namespace → Object → Pod → Verdict
judge_update wide ns absent pod = allowed
judge_update wide ns unconvertible pod = internal_error
judge_update wide ns (converted old) pod = judge_antigens ns (new_antigens wide (some old) pod)

unfoldable pub judge_object : (ℕ → ℕ) → Namespace → Attributes → Object → Verdict
unfolding judge_antigens new_antigens
judge_object wide ns a absent = allowed
judge_object wide ns a unconvertible = internal_error
judge_object wide ns a (converted pod) =
    if is_update a.operation
    then judge_update wide ns a.old_object pod
    else judge_antigens ns (new_antigens wide none pod)

-- The requests that Validate looks at: pods themselves, and updates of their ephemeral containers.
unfoldable pub looked_at : Attributes → Bool
looked_at a =
    a.pods
    && (str_eq a.subresource ""
        || (str_eq a.subresource "ephemeralcontainers" && is_update a.operation))

unfoldable pub validate : (ℕ → ℕ) → Namespace → Attributes → Verdict
unfolding looked_at judge_object
validate wide ns a = if looked_at a then judge_object wide ns a a.object else allowed
