-- ===== src/Controller/Relationships/Index.antt =====
-- kubernetes/overlay/pkg/kyvernetria/controller/relationships/relationships.go: the index of the services, and
-- what a host name means in it.
pub mod Forms
use kyvernetria.Text.{Text, codes, text_eq}
use kyvernetria.Text.Pieces.{before_text, trim_suffix, occurs}
use kyvernetria.Controller.Relationships.{Token}
use kyvernetria.Prelude.{Bool, true, false, List, [], ◌∷◌, ◌++◌, Option, none, some, if◌then◌else◌}

-- What is read of a Service; its UID goes along with it.
pub record Service : Type 0 where
  pub scope : Text
  pub name : Text
  pub uid : Text
  pub selector : List (Text × Text)

-- The key of a map that is filled from a list: the last entry of a key stays.
unfoldable pub last_with : (Service → Text) → Text → List Service → Option Service
last_with key k [] = none
last_with key k (s ∷ ss) = elim (last_with key k ss) [
  | some t ↦ some t
  | none ↦ if text_eq (key s) k then some s else none
]

-- The keys of the two maps; 46 is the dot, 47 the slash.
abbrev pub qualified_name : Service → Text
qualified_name s = s.name ++ 46 ∷ s.scope

abbrev pub short_name : Service → Text
short_name s = s.scope ++ 47 ∷ s.name

abbrev pub without_domain : Text → Option Text → Text
without_domain host none = trim_suffix (codes ".svc") host
without_domain host (some before) = before

-- lookup.
unfoldable pub lookup : List Service → Token → Text → Option Service
unfolding last_with before_text trim_suffix occurs
lookup services t scope = elim (occurs 46 t.host) [
  | true ↦
      last_with qualified_name (without_domain t.host (before_text (codes ".svc.") t.host)) services
  | false ↦ elim t.strong [
    | true ↦ last_with short_name (scope ++ 47 ∷ t.host) services
    | false ↦ none
  ]
]
