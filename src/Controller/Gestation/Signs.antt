-- ===== src/Controller/Gestation/Signs.antt =====
-- kubernetes/overlay/pkg/kyvernetria/controller/gestation/birth.go: signs, what is observed of the pods of a
-- birth, its events and the Services in front of it. An answer of the API that is `none` is an error.
pub mod Events
mod Examples
use kyvernetria.Gestation.Apgar.{Signs}
use kyvernetria.Text.{Text, codes}
use kyvernetria.Text.Pieces.{after_text}
use kyvernetria.Text.Split.{has_prefix}
use kyvernetria.Prelude.Int.{ℤ, pos, ◌+ℤ◌, ltb_ℤ, wrap32}
use kyvernetria.Prelude.{
  Bool, true, false, not, ◌&&◌, ◌||◌, List, [], ◌∷◌, ◌++◌, map, String, Option, none, some,
  if◌then◌else◌, str_eq, any, keep, All, length,
}

-- strings.Contains, for a text that is not empty.
unfoldable pub contains : Text → Text → Bool
unfolding after_text
contains p s = elim (after_text p s) [ none ↦ false | some rest ↦ true ]

abbrev pub is_reason : String → Option String → Bool
is_reason reason none = false
is_reason reason (some r) = str_eq r reason

-- ContainerStatus: its State is running, waiting or terminated for a reason.
pub record Container : Type 0 where
  pub restart_count : ℤ
  pub running : Bool
  pub waiting : Option String
  pub terminated : Option String
  pub last_terminated : Option String

-- A pod with its conditions, as types and statuses.
pub record Pod : Type 0 where
  pub name : String
  pub controller : Option String
  pub phase : String
  pub reason : String
  pub conditions : List (String × String)
  pub containers : List Container

unfoldable pub pod_ready : List (String × String) → Bool
pod_ready [] = false
pod_ready ((kind, status) ∷ cs) = if str_eq kind "Ready" then str_eq status "True" else pod_ready cs

-- n++ under a condition.
unfoldable pub counted : Bool → ℤ → ℤ
unfolding ◌+ℤ◌
counted b n = elim b [ true ↦ wrap32 (n +ℤ pos 1) | false ↦ n ]

unfoldable pub container_signs : List Container → Signs → Signs
unfolding counted ◌+ℤ◌
container_signs [] s = s
container_signs (c ∷ cs) s = container_signs cs (record s {
  restarts = wrap32 (s.restarts +ℤ c.restart_count);
  crash_looping = s.crash_looping || is_reason "CrashLoopBackOff" c.waiting;
  oom_kills =
      counted (is_reason "OOMKilled" c.last_terminated || is_reason "OOMKilled" c.terminated)
        s.oom_kills;
})

abbrev pub is_running : Pod → Bool
is_running p =
    str_eq p.phase "Running"
    && (any (λ (c : Container). true) p.containers
        && not (any (λ (c : Container). not c.running) p.containers))

abbrev pub living_signs : Pod → Signs → Signs
living_signs p s =
    let told =
      container_signs p.containers
        (record s { ready = counted (pod_ready p.conditions) s.ready }) in
    record told { running = counted (is_running p) told.running }

abbrev pub pod_signs : Pod → Signs → Signs
pod_signs p s = elim (str_eq p.phase "Failed" && str_eq p.reason "Evicted") [
  | true ↦ record s { evictions = counted true s.evictions }
  | false ↦ living_signs p s
]

unfoldable pub all_pod_signs : List Pod → Signs → Signs
unfolding container_signs counted pod_ready
all_pod_signs [] s = s
all_pod_signs (p ∷ ps) s = all_pod_signs ps (pod_signs p s)

-- The names that are in the map `names` or `serving`.
abbrev pub named : String → List String → Bool
named n ns = any (str_eq n) ns

-- An event with its involved object, and its time as eventTime chooses it; `none` for a time that is zero.
pub record Event : Type 0 where
  pub kind : String
  pub object : String
  pub type_text : String
  pub component : String
  pub reporting : String
  pub count : ℤ
  pub reason : String
  pub message : Text
  pub last_time : Option ℤ
  pub event_time : Option ℤ
  pub first_time : ℤ

abbrev pub time_or : Option ℤ → ℤ → ℤ
time_or none t = t
time_or (some u) t = u

unfoldable pub event_time_of : Event → ℤ
event_time_of e = time_or e.last_time (time_or e.event_time e.first_time)

abbrev pub event_source : String
event_source = "kyvernetria-gestation"

abbrev pub is_own : Event → Bool
is_own e = str_eq e.component event_source || str_eq e.reporting event_source

-- What is read of a ReplicaSet and its Deployment.
pub record Newborn : Type 0 where
  pub replica_set : String
  pub uid : String
  pub deployment : String
  pub born : ℤ

module _ (b : Newborn) (names : List String) where
  unfoldable pub is_about : Event → Bool
  unfolding has_prefix
  is_about e =
      if str_eq e.kind "Pod"
      then named e.object names || has_prefix (codes e.object) (codes b.replica_set ++ codes "-")
      else (if str_eq e.kind "ReplicaSet"
          then str_eq e.object b.replica_set
          else (str_eq e.kind "Deployment" && str_eq e.object b.deployment))

  unfoldable pub is_skipped : Event → Bool
  unfolding is_about event_time_of
  is_skipped e =
      not (str_eq e.type_text "Warning")
      || (not (is_about e) || (ltb_ℤ (event_time_of e) b.born || is_own e))

  abbrev pub at_least_one : ℤ → ℤ
  at_least_one n = if ltb_ℤ n (pos 1) then pos 1 else n

  abbrev pub is_probe : Text → Event → Bool
  is_probe probe e = str_eq e.reason "Unhealthy" && contains probe e.message

  abbrev pub warned : Event → Signs → Signs
  warned e s =
      if is_probe (codes "Liveness probe") e
      then record s { liveness_failures = wrap32 (s.liveness_failures +ℤ at_least_one e.count) }
      else (if is_probe (codes "Readiness probe") e || is_probe (codes "Startup probe") e
          then s
          else (if str_eq e.reason "BackOff"
              then s
              else record s { warnings = wrap32 (s.warnings +ℤ at_least_one e.count) }))

  unfoldable pub event_signs : List Event → Signs → Signs
  unfolding is_skipped contains ◌+ℤ◌
  event_signs [] s = s
  event_signs (e ∷ es) s = event_signs es (elim (is_skipped e) [ true ↦ s | false ↦ warned e s ])

  -- The loop over the pages of the list of events.
  unfoldable pub page_signs : List (Option (List Event)) → Signs → Option Signs
  unfolding event_signs
  page_signs [] s = some s
  page_signs (none ∷ pages) s = none
  page_signs (some es ∷ pages) s = page_signs pages (event_signs es s)

-- An endpoint: the kind and the name of its target, and its condition Ready.
pub record Endpoint : Type 0 where
  pub target : Option (String × String)
  pub ready : Option Bool

-- A Service: whether it has a selector that the pods of the birth match, and the endpoints of its slices.
pub record Service : Type 0 where
  pub selects : Bool
  pub endpoints : Option (List Endpoint)

abbrev pub is_ready : Option Bool → Bool
is_ready none = true
is_ready (some r) = r

abbrev pub served_pod : List String → Endpoint → Option String
served_pod names e = elim e.target [
  | none ↦ none
  | some t ↦ if str_eq t.0 "Pod" && (named t.1 names && is_ready e.ready) then some t.1 else none
]

abbrev pub add_name : Option String → List String → List String
add_name none serving = serving
add_name (some n) serving = if named n serving then serving else n ∷ serving

unfoldable pub all_served : List String → List Endpoint → List String → List String
all_served names [] serving = serving
all_served names (e ∷ es) serving = all_served names es (add_name (served_pod names e) serving)

abbrev pub with_endpoints : List String → Signs → Signs
with_endpoints serving s = record s { ready_endpoint = wrap32 (pos (length serving)) }

unfoldable pub service_signs : List String → List Service → List String → Signs → Option Signs
unfolding all_served counted
service_signs names [] serving s = some (with_endpoints serving s)
service_signs names (v ∷ vs) serving s = elim v.selects [
  | false ↦ service_signs names vs serving s
  | true ↦ elim v.endpoints [
    | none ↦ none
    | some es ↦
        service_signs names vs (all_served names es serving)
          (record s { services = counted true s.services })
  ]
]

abbrev pub no_signs : ℤ → Signs
no_signs desired = record {
  desired = desired;
  ready = pos 0;
  running = pos 0;
  restarts = pos 0;
  crash_looping = false;
  liveness_failures = pos 0;
  warnings = pos 0;
  services = pos 0;
  ready_endpoint = pos 0;
  oom_kills = pos 0;
  evictions = pos 0;
}

abbrev pub then_services : List String → Option (List Service) → Option Signs → Option Signs
then_services names svcs none = none
then_services names none (some s) = none
then_services names (some vs) (some s) = service_signs names vs [] s

abbrev pub names_of : List Pod → List String
names_of ps = map (λ (p : Pod). p.name) ps

abbrev pub of_pods :
    Newborn → List Pod → List (Option (List Event)) → Option (List Service) → Signs → Option Signs
of_pods b ps pages svcs s =
    then_services (names_of ps) svcs (page_signs b (names_of ps) pages (all_pod_signs ps s))

abbrev pub of_newborn :
    Newborn
    → Option (List Pod)
    → List (Option (List Event))
    → Option (List Service)
    → Signs
    → Option Signs
of_newborn b none pages svcs s = none
of_newborn b (some ps) pages svcs s =
    of_pods b (keep (λ (p : Pod). is_reason b.uid p.controller) ps) pages svcs s

-- signs, with the ReplicaSet of the birth as replicaSetAt finds it, and the answers to its lists.
unfoldable pub signs :
    ℤ
    → Option (Option Newborn)
    → Option (List Pod)
    → List (Option (List Event))
    → Option (List Service)
    → Option Signs
unfolding all_pod_signs page_signs service_signs
signs desired none pods pages svcs = none
signs desired (some none) pods pages svcs = some (no_signs desired)
signs desired (some (some b)) pods pages svcs = of_newborn b pods pages svcs (no_signs desired)
