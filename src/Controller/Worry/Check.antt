-- ===== src/Controller/Worry/Check.antt =====
-- kubernetes/overlay/pkg/kyvernetria/controller/worry/worry.go: check and persist.
use kyvernetria.Text.{Text, text_eq}
use kyvernetria.Controller.Worry.{
  cpu, memory, Worries, decode_worried, encode_worried, Event, feel, percent, Pod, Requests,
  ResourceList, requested, requested_on, quantity_of,
}
use kyvernetria.Prelude.{
  Bool, true, false, ◌||◌, List, [], ◌∷◌, ◌++◌, Option, none, some, any, keep,
}

-- What is read of a node; an empty annotation is a missing one.
pub record Node : Type 0 where
  pub name : Text
  pub annotation : Text
  pub allocatable : ResourceList

-- How a patch of a node ends.
pub data Patched : Type 0 where
  stored : Patched
  not_found : Patched
  failed : Patched

-- The map `worried` of the controller.
abbrev pub Worried : Type 0
Worried = List (Text × Worries)

unfoldable pub worries_of : Text → Worried → Option Worries
worries_of node [] = none
worries_of node ((n, state) ∷ w) = elim (text_eq n node) [
  | true ↦ some state
  | false ↦ worries_of node w
]

unfoldable pub set_worries : Text → Worries → Worried → Worried
set_worries node state [] = (node, state) ∷ []
set_worries node state ((n, old) ∷ w) = elim (text_eq n node) [
  | true ↦ (n, state) ∷ w
  | false ↦ (n, old) ∷ set_worries node state w
]

abbrev pub or_decoded : Text → Option Worries → Worries
or_decoded annotation none = decode_worried annotation
or_decoded annotation (some state) = state

-- What is known of a node before it is felt.
unfoldable pub state_of : Node → Worried → Worries
unfolding worries_of decode_worried
state_of node w = or_decoded node.annotation (worries_of node.name w)

abbrev pub event_list : Option Event → List Event
event_list none = []
event_list (some e) = e ∷ []

-- The two calls of feel for a node.
unfoldable pub feel_node : ResourceList → ResourceList → Worries → Worries × List Event
unfolding feel percent quantity_of
feel_node sum allocatable state =
    let first = feel cpu (percent (quantity_of cpu sum) (quantity_of cpu allocatable)) state in
    let second =
      feel memory (percent (quantity_of memory sum) (quantity_of memory allocatable)) first.0 in
    (second.0, event_list first.1 ++ event_list second.1)

-- persist: the value that it sends, if it sends one.
unfoldable pub persist : Node → Worries → Option Text
unfolding encode_worried
persist node state = elim (text_eq node.annotation (encode_worried state)) [
  | true ↦ none
  | false ↦ some (encode_worried state)
]

-- Whether persist returns an error: a node that is gone is none.
abbrev pub patch_error : (Text → Text → Patched) → Text → Option Text → Bool
patch_error patch name none = false
patch_error patch name (some value) = elim (patch name value) [
  | stored ↦ false
  | not_found ↦ false
  | failed ↦ true
]

abbrev pub sent : Text → Option Text → List (Text × Text)
sent name none = []
sent name (some value) = (name, value) ∷ []

-- A check: the map afterwards, the events, the patches that were sent, and whether one failed.
pub record Checked : Type 0 where
  pub worried : Worried
  pub events : List Event
  pub patches : List (Text × Text)
  pub failed : Bool

unfoldable pub check_nodes : (Text → Text → Patched) → Requests → List Node → Worried → Checked
unfolding state_of feel_node persist set_worries requested_on
check_nodes patch sums [] w = record { worried = w; events = []; patches = []; failed = false }
check_nodes patch sums (node ∷ nodes) w =
    let felt = feel_node (requested_on node.name sums) node.allocatable (state_of node w) in
    let written = persist node felt.0 in
    let rest = check_nodes patch sums nodes (set_worries node.name felt.0 w) in
    record {
      worried = rest.worried;
      events = felt.1 ++ rest.events;
      patches = sent node.name written ++ rest.patches;
      failed = patch_error patch node.name written || rest.failed;
    }

unfoldable pub is_present : List Node → Text → Bool
is_present nodes name = any (λ (n : Node). text_eq n.name name) nodes

-- Nodes that are gone are forgotten.
unfoldable pub forget_gone : List Node → Worried → Worried
unfolding is_present
forget_gone nodes w = keep (λ (e : Text × Worries). is_present nodes e.0) w

-- check, once the listers have answered.
unfoldable pub check : (Text → Text → Patched) → List Node → List Pod → Worried → Checked
unfolding check_nodes forget_gone requested
check patch nodes pods w =
    let c = check_nodes patch (requested pods) nodes w in
    record c { worried = forget_gone nodes c.worried }
