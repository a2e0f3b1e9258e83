-- ===== src/Admission/NoBruteForce.antt =====
-- admission/nobruteforce/admission.go: immediate deletes and evictions of running pods are refused.
pub mod Refusals
use kyvernetria.Text.{codes}
use kyvernetria.Text.Split.{has_prefix}
use kyvernetria.Prelude.Int.{ℤ, pos, eqb_ℤ}
use kyvernetria.Prelude.{
  Bool, true, false, not, ◌&&◌, ◌||◌, String, Option, none, some, if◌then◌else◌, str_eq,
}

pub data PodPhase : Type 0 where
  pending running succeeded failed unknown : PodPhase

-- What the plugin reads of a pod; `annotations` gives "" where there is none.
pub record Pod : Type 0 where
  pub node_name : String
  pub phase : PodPhase
  pub terminating : Bool
  pub annotations : String → String

pub data Operation : Type 0 where
  create update delete connect : Operation

-- DeleteOptions, by their grace period.
pub record DeleteOptions : Type 0 where
  pub grace_period : Option ℤ

-- What the plugin reads of a request. `options` and `old_pod` are `none` where they are missing or of
-- another type; `eviction` is the object where it is an Eviction, with the options it may carry.
pub record Attributes : Type 0 where
  pub pods : Bool
  pub operation : Operation
  pub subresource : String
  pub options : Option DeleteOptions
  pub eviction : Option (Option DeleteOptions)
  pub old_pod : Option Pod
  pub user : Option String

-- What the informer's cache says of the pod that an eviction targets.
pub data Cached : Type 0 where
  not_ready absent broken : Cached
  found : Pod → Cached

pub data Verdict : Type 0 where
  allowed forbidden internal_error : Verdict

-- The user names of the cluster's own components, which Kubernetes defines.
pub record Components : Type 0 where
  pub garbage_collector : String
  pub controller_manager : String
  pub scheduler : String
  pub api_server : String

unfoldable pub immediate : Option DeleteOptions → Bool
immediate none = false
immediate (some o) = elim o.grace_period [ none ↦ false | some n ↦ eqb_ℤ n (pos 0) ]

unfoldable pub is_cluster_component : Components → Option String → Bool
unfolding has_prefix
is_cluster_component n none = false
is_cluster_component n (some name) =
    (has_prefix (codes name) (codes "system:node:") || str_eq name n.garbage_collector)
    || (str_eq name n.controller_manager || str_eq name n.scheduler || str_eq name n.api_server)

abbrev pub finished : PodPhase → Bool
finished succeeded = true
finished failed = true
finished _ = false

unfoldable pub is_running : Pod → Bool
is_running pod = not (str_eq pod.node_name "") && not (finished pod.phase)

abbrev pub discussed : Pod → Bool
discussed pod = str_eq (pod.annotations "kyvernetria.io/discussed") "true"

-- The last test of Validate, on the pod that would be cut off.
unfoldable pub judge_pod : Pod → Verdict
unfolding is_running
judge_pod pod =
    if not (is_running pod) || (pod.terminating || discussed pod) then allowed else forbidden

abbrev pub judge_old : Option Pod → Verdict
judge_old none = allowed
judge_old (some pod) = judge_pod pod

-- evictedPod, and what Validate makes of its answer.
abbrev pub judge_cached : Cached → Verdict
judge_cached not_ready = forbidden
judge_cached absent = allowed
judge_cached broken = internal_error
judge_cached (found pod) = judge_pod pod

abbrev pub judge_eviction :
    Components → Cached → Option String → Option (Option DeleteOptions) → Verdict
judge_eviction n c user none = allowed
judge_eviction n c user (some options) =
    if not (immediate options) || is_cluster_component n user then allowed else judge_cached c

abbrev pub judge_delete : Components → Attributes → Verdict
judge_delete n a =
    if not (immediate a.options) || is_cluster_component n a.user
    then allowed
    else judge_old a.old_pod

unfoldable pub validate_pods : Components → Cached → Operation → Attributes → Verdict
unfolding immediate is_cluster_component
validate_pods n c delete a = if str_eq a.subresource "" then judge_delete n a else allowed
validate_pods n c create a =
    if str_eq a.subresource "eviction" then judge_eviction n c a.user a.eviction else allowed
validate_pods n c update a = allowed
validate_pods n c connect a = allowed

unfoldable pub validate : Components → Cached → Attributes → Verdict
unfolding validate_pods
validate n c a = if a.pods then validate_pods n c a.operation a else allowed
