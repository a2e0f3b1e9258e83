-- ===== src/Controller/Relationships/Graph.antt =====
-- kubernetes/overlay/pkg/kyvernetria/controller/relationships/relationships.go: the edges between Services and
-- workloads, in the order of their object names.
pub mod Edges
use kyvernetria.Text.{Text, codes, text_eq, text_ltb}
use kyvernetria.Text.Case.{to_lower}
use mathlib.Core.List.{reverse}
use kyvernetria.Prelude.Sort.{sort_by}
use kyvernetria.Controller.Relationships.{Token, host_tokens, is_hostish_env}
use kyvernetria.Controller.Relationships.Index.{Service, lookup}
use kyvernetria.Prelude.{
  ℕ, Bool, true, false, not, ◌&&◌, ◌||◌, List, [], ◌∷◌, ◌++◌, Option, none, some, any, map, ◌==◌,
  ◌-◌, length, take, ltb, if◌then◌else◌,
}

pub record Ref : Type 0 where
  pub kind : Text
  pub scope : Text
  pub name : Text
  pub uid : Text

pub data Kind : Type 0 where
  serves : Kind
  talks_to : Kind

-- An edge; the evidence is the host that a text mentions, none for a selector.
pub record Relationship : Type 0 where
  pub from : Ref
  pub to : Ref
  pub kind : Kind
  pub host : Option Text

-- A container: its environment, its arguments and its command.
pub record Container : Type 0 where
  pub env : List (Text × Text)
  pub args : List Text
  pub command : List Text

abbrev pub Labels : Type 0
Labels = List (Text × Text)

pub record Workload : Type 0 where
  pub ref : Ref
  pub labels : Labels
  pub init_containers : List Container
  pub containers : List Container

-- A text of a template, and whether it is an address by the name of its variable.
abbrev pub Said : Type 0
Said = Text × Bool

abbrev pub env_text : (ℕ → ℕ) → Text × Text → List Said
env_text wide (name, value) = elim (text_eq value []) [
  | true ↦ []
  | false ↦ (value, is_hostish_env wide name) ∷ []
]

unfoldable pub env_texts : (ℕ → ℕ) → List (Text × Text) → List Said
unfolding is_hostish_env
env_texts wide [] = []
env_texts wide (e ∷ es) = env_text wide e ++ env_texts wide es

abbrev pub plain : Text → Said
plain t = (t, false)

unfoldable pub container_texts : (ℕ → ℕ) → List Container → List Said
unfolding env_texts
container_texts wide [] = []
container_texts wide (c ∷ cs) =
    env_texts wide c.env ++ map plain c.args ++ map plain c.command ++ container_texts wide cs

-- templateTexts.
unfoldable pub template_texts : (ℕ → ℕ) → Workload → List Said
unfolding container_texts
template_texts wide w = container_texts wide w.init_containers ++ container_texts wide w.containers

abbrev pub service_ref : Service → Ref
service_ref s = record { kind = codes "Service"; scope = s.scope; name = s.name; uid = s.uid }

abbrev pub is_empty : Labels → Bool
is_empty [] = true
is_empty (l ∷ ls) = false

abbrev pub kind_text : Kind → Text
kind_text serves = codes "serves"
kind_text talks_to = codes "talks-to"

-- kindShort.
unfoldable pub kind_short : (ℕ → ℕ) → Text → Text
unfolding to_lower
kind_short wide kind =
    if text_eq kind (codes "Deployment")
    then codes "deploy"
    else (if text_eq kind (codes "StatefulSet")
        then codes "sts"
        else (if text_eq kind (codes "DaemonSet")
            then codes "ds"
            else (if text_eq kind (codes "Service") then codes "svc" else to_lower wide kind)))

abbrev pub is_edge_char : ℕ → Bool
is_edge_char c = c == 46 || c == 45

unfoldable pub trim_start : Text → Text
trim_start [] = []
trim_start (c ∷ s) = elim (is_edge_char c) [ true ↦ trim_start s | false ↦ c ∷ s ]

-- strings.TrimRight(s, ".-").
unfoldable pub trim_end : Text → Text
unfolding trim_start
trim_end s = reverse (trim_start (reverse s))

-- The largest length of an object's name.
abbrev pub max_name : ℕ
max_name = 253

-- A name that is too long is cut, and ends in the first 10 digits of a digest of the whole.
unfoldable pub shortened : (Text → Text) → Text → Text
unfolding trim_end
shortened digest n =
    let suffix = 45 ∷ take 10 (digest n) in
    if ltb max_name (length n) then trim_end (take (max_name - length suffix) n) ++ suffix else n

abbrev pub end_name : (ℕ → ℕ) → Ref → Text
end_name wide r = kind_short wide r.kind ++ 45 ∷ r.name

abbrev pub scope_part : Ref → Ref → Text
scope_part from to = if text_eq to.scope from.scope then [] else 46 ∷ to.scope

-- Name, for an argument that is the SHA-256 of a text in hexadecimal.
unfoldable pub object_name : (ℕ → ℕ) → (Text → Text) → Relationship → Text
unfolding kind_short trim_start trim_end shortened to_lower
object_name wide digest r =
    let whole =
      to_lower wide
        (end_name wide r.from ++ (46 ∷ kind_text r.kind) ++ (46 ∷ end_name wide r.to)) in
    shortened digest (trim_end (trim_start (whole ++ scope_part r.from r.to)))

module _ (wide : ℕ → ℕ) (matches : Labels → Labels → Bool) where
  -- Whether a Service serves a workload: it has a selector, and that matches in its namespace.
  unfoldable pub serves_workload : Service → Workload → Bool
  serves_workload s w =
      not (is_empty s.selector) && (text_eq w.ref.scope s.scope && matches s.selector w.labels)

  abbrev pub serves_edge : Service → Workload → Relationship
  serves_edge s w = record { from = service_ref s; to = w.ref; kind = serves; host = none }

  unfoldable pub served_by : Service → List Workload → List Relationship
  unfolding serves_workload
  served_by s [] = []
  served_by s (w ∷ ws) = elim (serves_workload s w) [
    | true ↦ serves_edge s w ∷ served_by s ws
    | false ↦ served_by s ws
  ]

  unfoldable pub all_served : List Service → List Workload → List Relationship
  unfolding served_by
  all_served [] ws = []
  all_served (s ∷ ss) ws = served_by s ws ++ all_served ss ws

  -- A Service is told by its namespace and its name, here and in the map of who is served.
  unfoldable pub same_service : Service → Service → Bool
  same_service s t = text_eq s.scope t.scope && text_eq s.name t.name

  unfoldable pub is_served : List Service → Service → Workload → Bool
  unfolding same_service serves_workload
  is_served services s w = any (λ t. same_service t s && serves_workload t w) services

  abbrev pub talks_edge : Workload → Service → Text → Relationship
  talks_edge w s host = record {
    from = w.ref;
    to = service_ref s;
    kind = talks_to;
    host = some host;
  }

  -- One token: the edge that it gives, and the services that are seen afterwards.
  abbrev pub met :
      List Service
      → Workload
      → Token
      → List Service
      → Option Service
      → List Relationship × List Service
  met services w t seen none = ([], seen)
  met services w t seen (some s) = elim (any (same_service s) seen) [
    | true ↦ ([], seen)
    | false ↦ elim (is_served services s w) [
      | true ↦ ([], s ∷ seen)
      | false ↦ (talks_edge w s t.host ∷ [], s ∷ seen)
    ]
  ]

  -- The two loops over the tokens of the texts, on all of the tokens in their order.
  unfoldable pub talks : List Service → Workload → List Token → List Service → List Relationship
  unfolding lookup same_service is_served
  talks services w [] seen = []
  talks services w (t ∷ ts) seen =
      let step = met services w t seen (lookup services t w.ref.scope) in
      step.0 ++ talks services w ts step.1

  unfoldable pub tokens_of : List Said → List Token
  unfolding host_tokens
  tokens_of [] = []
  tokens_of ((value, hostish) ∷ texts) = host_tokens wide value hostish ++ tokens_of texts

  unfoldable pub all_talks : List Service → List Workload → List Relationship
  unfolding talks tokens_of template_texts
  all_talks services [] = []
  all_talks services (w ∷ ws) =
      talks services w (tokens_of (template_texts wide w)) [] ++ all_talks services ws

  -- Graph.
  unfoldable pub graph : (Text → Text) → List Service → List Workload → List Relationship
  unfolding all_served all_talks sort_by object_name text_ltb
  graph digest services workloads =
      sort_by (λ a b. text_ltb (object_name wide digest a) (object_name wide digest b))
        (all_served services workloads ++ all_talks services workloads)
