-- ===== src/Controller/Relationships/Writes.antt =====
-- kubernetes/overlay/pkg/kyvernetria/controller/relationships/controller.go: reconcile, from the graph to the
-- writes of objects. An object is its key, of the namespace and the name, and its spec as fmt.Sprint prints it.
pub mod Runs
pub mod Settled
use kyvernetria.Text.{Text, text_eq}
use kyvernetria.Text.Table.{Table, value_at, set_value, delete_key, has_key}
use kyvernetria.Controller.Relationships.Graph.{Relationship}
use kyvernetria.Prelude.{Bool, true, false, ◌||◌, List, [], ◌∷◌, ◌++◌, Option, none, some}

-- The map `desired`, for the key and the printed spec of toObject.
unfoldable pub desired_objects :
    (Relationship → Text) → (Relationship → Text) → List Relationship → Table → Table
unfolding set_value
desired_objects key spec [] m = m
desired_objects key spec (r ∷ rs) m = desired_objects key spec rs (set_value (key r) (spec r) m)

pub data Write : Type 0 where
  deletes : Text → Write
  updates : Text → Text → Write
  creates : Text → Text → Write

unfoldable pub all_creates : Table → List Write
all_creates [] = []
all_creates ((k, spec) ∷ m) = creates k spec ∷ all_creates m

abbrev pub update_unless : Bool → Text → Text → List Write
update_unless true k want = []
update_unless false k want = updates k want ∷ []

-- What is written for a listed object, and what is still desired then.
abbrev pub writes_for : Text → Text → Table → Option Text → List Write × Table
writes_for k spec desired none = (deletes k ∷ [], desired)
writes_for k spec desired (some want) =
    (update_unless (text_eq spec want) k want, delete_key k desired)

-- The two loops: over the objects that are listed, and over what is desired then.
unfoldable pub writes : Table → Table → List Write
unfolding value_at delete_key all_creates
writes [] desired = all_creates desired
writes ((k, spec) ∷ current) desired =
    let step = writes_for k spec desired (value_at k desired) in step.0 ++ writes current step.1

unfoldable pub create_unless : Bool → Text → Text → Table → Table
unfolding set_value
create_unless true k spec m = m
create_unless false k spec m = set_value k spec m

-- A write that is done, on all objects of the API. A delete of an object that is gone and a create of one that
-- exists are no errors, and change nothing.
unfoldable pub written : Write → Table → Table
unfolding delete_key create_unless
written (deletes k) m = delete_key k m
written (updates k spec) m = set_value k spec m
written (creates k spec) m = create_unless (has_key k m) k spec m

-- The objects afterwards, and whether a write failed.
unfoldable pub perform : (Write → Bool) → List Write → Table → Table × Bool
unfolding written
perform fails [] m = (m, false)
perform fails (w ∷ ws) m = elim (fails w) [
  | true ↦ ((perform fails ws m).0, true)
  | false ↦ perform fails ws (written w m)
]

-- reconcile, on all objects of the API, of which `current` are listed: those with the controller's label.
unfoldable pub reconcile :
    (Write → Bool)
    → (Relationship → Text)
    → (Relationship → Text)
    → List Relationship
    → Table
    → Table
    → Table × Bool
unfolding perform writes desired_objects
reconcile fails key spec edges current objects =
    perform fails (writes current (desired_objects key spec edges [])) objects
