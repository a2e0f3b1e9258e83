-- ===== src/Controller/Relationships/Examples.antt =====
-- The theorems on the graph at a shop with a database.
use kyvernetria.Text.{Text, codes, text_eq}
use kyvernetria.Controller.Relationships.{Token}
use kyvernetria.Controller.Relationships.Index.{Service, lookup, last_with, qualified_name}
use kyvernetria.Controller.Relationships.Index.Forms.{host_token_of, lookup-forms}
use kyvernetria.Text.Table.{Table, value_at, set_value, delete_key}
use kyvernetria.Controller.Relationships.Writes.{
  reconcile, perform, writes, written, all_creates, create_unless, desired_objects,
}
use kyvernetria.Controller.Relationships.Writes.Settled.{Agrees, outcome, reconcile-outcome}
use kyvernetria.Controller.Relationships.Graph.{
  Relationship, talks_to, Workload, Labels, talks, is_served,
}
use kyvernetria.Controller.Relationships.Graph.Edges.{edge_to, means, talks-exact}
use kyvernetria.Prelude.{
  String, false, some, none, ◌≤◌, ◌≡◌, refl, Bool, true, not, ◌&&◌, List, [], ◌∷◌, ◌++◌, any, count,
  arith,
}

abbrev database : Service
database = record {
  scope = codes "data";
  name = codes "db";
  uid = codes "s1";
  selector = (codes "app", codes "db") ∷ [];
}

abbrev web : Workload
web = record {
  ref = record {
    kind = codes "Deployment";
    scope = codes "shop";
    name = codes "web";
    uid = codes "d1";
  };
  labels = (codes "app", codes "web") ∷ [];
  init_containers = [];
  containers = [];
}

-- Selects what has the first label of the selector.
abbrev first_label : Labels → Labels → Bool
first_label [] ls = true
first_label ((k, v) ∷ s) ls = any (λ l. text_eq l.0 k && text_eq l.1 v) ls

abbrev mentioned : List Token
mentioned = host_token_of (codes "db.data") ∷ host_token_of (codes "db.data.svc.cluster.local") ∷ []

talks-exact_example :
    (any (edge_to database) (talks (λ c. c) first_label (database ∷ []) web mentioned []) ≡ (
      any
        (λ t. means (λ c. c) first_label database (lookup (database ∷ []) t (codes "shop")))
        mentioned
      && not (is_served (λ c. c) first_label (database ∷ []) database web)))
    × (count (edge_to database) (talks (λ c. c) first_label (database ∷ []) web mentioned []) ≤ 1)
talks-exact_example = talks-exact (λ c. c) first_label (database ∷ []) web mentioned database

lookup-forms_example :
    (lookup (database ∷ []) (host_token_of (codes "db.data")) (codes "shop")
      ≡ last_with qualified_name (codes "db.data") (database ∷ []))
    × (lookup (database ∷ []) (host_token_of (codes "db.data.svc.cluster.local")) (codes "shop")
        ≡ last_with qualified_name (codes "db.data") (database ∷ []))
lookup-forms_example =
    lookup-forms (database ∷ []) (codes "db") (codes "data") (codes "cluster.local") (codes "shop")
      (ground arith) (ground arith) refl

-- One object is out of date, one is not wanted any more, and one is missing.
abbrev edge_of : String → String → Relationship
edge_of from host = record {
  from = record { kind = codes "Deployment"; scope = codes "shop"; name = codes from; uid = [] };
  to = record { kind = codes "Service"; scope = codes "data"; name = codes "db"; uid = [] };
  kind = talks_to;
  host = some (codes host);
}

abbrev key_of : Relationship → Text
key_of r = r.from.name

abbrev spec_of : Relationship → Text
spec_of r = elim r.host [ none ↦ [] | some t ↦ t ]

abbrev listed_objects : Table
listed_objects = (codes "web", codes "old") ∷ (codes "gone", codes "x") ∷ []

-- An object that is made by hand, without the controller's label.
abbrev by_hand : Table
by_hand = (codes "api", codes "mine") ∷ []

abbrev wanted_edges : List Relationship
wanted_edges = edge_of "web" "db.data" ∷ edge_of "api" "db" ∷ edge_of "job" "db" ∷ []

Agrees-append : (m rest : Table) → Agrees m (m ++ rest)
unfolding value_at
Agrees-append [] rest k spec e = absurd (cc e)
Agrees-append ((j, v) ∷ m) rest k spec e = ground (arith, e, Agrees-append m rest k spec)

reconcile-outcome_example :
    value_at
      (codes "api")
      (reconcile
        (λ w. false)
        key_of
        spec_of
        wanted_edges
        listed_objects
        (listed_objects ++ by_hand)).0
    ≡ outcome
        (codes "api")
        listed_objects
        (desired_objects key_of spec_of wanted_edges [])
        (listed_objects ++ by_hand)
unfolding reconcile perform writes value_at delete_key all_creates desired_objects set_value written
    create_unless
reconcile-outcome_example =
    reconcile-outcome (λ w. false) key_of spec_of wanted_edges listed_objects
      (listed_objects ++ by_hand) (codes "api") (refl, (refl, tt))
      (Agrees-append listed_objects by_hand) refl

-- The object that is made by hand stays as it is.
by_hand_kept :
    outcome
      (codes "api")
      listed_objects
      (desired_objects key_of spec_of wanted_edges [])
      (listed_objects ++ by_hand)
    ≡ some (codes "mine")
unfolding value_at desired_objects set_value
by_hand_kept = refl
