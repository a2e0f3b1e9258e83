-- ===== src/Placement/Schedule.antt =====
-- kubernetes/overlay/pkg/kyvernetria/scheduler/placememory/placememory.go: the points that a pod's memory
-- gives to nodes.
use kyvernetria.Text.{Text, text_eq}
use kyvernetria.Prelude.Int.{ℤ}
use kyvernetria.Placement.{
  Holder, ReplicaSets, Pod, holder_for, ordinal, decode, decode_ordinals, deployment, replica_set,
  stateful_set, member, scores,
}
use kyvernetria.Placement.Pods.{is_holder, node_at, holder_eq}
use kyvernetria.Prelude.{ℕ, Bool, true, false, not, ◌||◌, List, [], ◌∷◌, Option, none, some}

-- A pod on a node, with the UID of its controller where it has one.
pub record Other : Type 0 where
  pub pod : Pod
  pub uid : Text
  pub deleting : Bool
  pub owner_uid : Option Text

-- A NodeInfo: the node's name, `none` for a nil node, and its pods.
pub record NodeInfo : Type 0 where
  pub node : Option Text
  pub pods : List Other

-- Which controllers are known to belong to the same holder.
abbrev pub Siblings : Type 0
Siblings = List (Text × Bool)

unfoldable pub sibling_at : Text → Siblings → Option Bool
sibling_at uid [] = none
sibling_at uid ((u, b) ∷ rest) = elim (text_eq u uid) [
  | true ↦ some b
  | false ↦ sibling_at uid rest
]

unfoldable pub passed_over : Pod → Text → Other → Bool
passed_over pod uid other =
    not (text_eq other.pod.scope pod.scope) || (text_eq other.uid uid || other.deleting)

unfoldable pub same_holder : ReplicaSets → Holder → Other → Bool
unfolding holder_for holder_eq
same_holder rss h other = is_holder h (holder_for rss other.pod)

abbrev pub resolved : ReplicaSets → Holder → Other → Text → Siblings → Option Bool → Bool × Siblings
resolved rss h other uid known (some same) = (same, known)
resolved rss h other uid known none =
    (same_holder rss h other, (uid, same_holder rss h other) ∷ known)

-- The body of the loop over a node's pods: whether it is busy, and what is known afterwards.
abbrev pub asked : ReplicaSets → Holder → Other → Siblings → Option Text → Bool × Siblings
asked rss h other known none = (false, known)
asked rss h other known (some uid) = resolved rss h other uid known (sibling_at uid known)

unfoldable pub look_at : ReplicaSets → Holder → Pod → Text → Other → Siblings → Bool × Siblings
unfolding passed_over same_holder sibling_at
look_at rss h pod uid other known = elim (passed_over pod uid other) [
  | true ↦ (false, known)
  | false ↦ asked rss h other known other.owner_uid
]

unfoldable pub occupied :
    ReplicaSets → Holder → Pod → Text → List Other → Siblings → Bool × Siblings
unfolding look_at
occupied rss h pod uid [] known = (false, known)
occupied rss h pod uid (o ∷ os) known = elim (look_at rss h pod uid o known).0 [
  | true ↦ (true, (look_at rss h pod uid o known).1)
  | false ↦ occupied rss h pod uid os (look_at rss h pod uid o known).1
]

-- The loop over the nodes: the busy ones.
unfoldable pub busy_nodes :
    ReplicaSets → Holder → Pod → Text → List Text → List NodeInfo → Siblings → List Text
unfolding occupied member
busy_nodes rss h pod uid wanted [] known = []
busy_nodes rss h pod uid wanted (ni ∷ nis) known = elim ni.node [
  | none ↦ busy_nodes rss h pod uid wanted nis known
  | some n ↦ elim (member n wanted) [
    | false ↦ busy_nodes rss h pod uid wanted nis known
    | true ↦ elim (occupied rss h pod uid ni.pods known).0 [
      | true ↦ n ∷ busy_nodes rss h pod uid wanted nis (occupied rss h pod uid ni.pods known).1
      | false ↦ busy_nodes rss h pod uid wanted nis (occupied rss h pod uid ni.pods known).1
    ]
  ]
]

abbrev pub Points : Type 0
Points = List (Text × ℕ)

-- homes; without remembered nodes there is no state.
unfoldable pub homes : ReplicaSets → Pod → Text → Holder → List Text → List NodeInfo → Points
unfolding busy_nodes scores
homes rss pod uid h [] nodes = []
homes rss pod uid h (r ∷ remembered) nodes =
    scores (r ∷ remembered) (busy_nodes rss h pod uid (r ∷ remembered) nodes [])

abbrev pub whole_score : Text → Points
whole_score node = elim (text_eq node []) [ true ↦ [] | false ↦ (node, 100) ∷ [] ]

abbrev pub ordinal_points : Text → Option ℤ → Points
ordinal_points annotation none = []
ordinal_points annotation (some o) = whole_score (node_at o (decode_ordinals annotation))

abbrev pub points_of : ReplicaSets → Pod → Text → List NodeInfo → Holder → Option Text → Points
points_of rss pod uid nodes h none = []
points_of rss pod uid nodes h (some annotation) = elim (text_eq h.kind stateful_set) [
  | true ↦ ordinal_points annotation (ordinal pod h.name)
  | false ↦ elim (text_eq h.kind deployment || text_eq h.kind replica_set) [
    | true ↦ homes rss pod uid h (decode annotation) nodes
    | false ↦ []
  ]
]

abbrev pub held_points :
    ReplicaSets → (Holder → Option Text) → Pod → Text → List NodeInfo → Option Holder → Points
held_points rss cache pod uid nodes none = []
held_points rss cache pod uid nodes (some h) = points_of rss pod uid nodes h (cache h)

-- (*PlaceMemory).scores: the empty list for no state, with which PreScore skips the plugin.
unfoldable pub pod_scores :
    ReplicaSets → (Holder → Option Text) → Pod → Text → List NodeInfo → Points
unfolding holder_for homes decode node_at decode_ordinals ordinal
pod_scores rss cache pod uid nodes = held_points rss cache pod uid nodes (holder_for rss pod)

abbrev pub later_or : ℕ → Option ℕ → Option ℕ
later_or p none = some p
later_or p (some q) = some q

-- A key of a Go map that is filled in order: a later entry replaces an earlier one.
unfoldable pub entry_of : Text → Points → Option ℕ
entry_of node [] = none
entry_of node ((n, p) ∷ rest) = elim (text_eq n node) [
  | true ↦ later_or p (entry_of node rest)
  | false ↦ entry_of node rest
]

abbrev pub or_zero : Option ℕ → ℕ
or_zero none = 0
or_zero (some p) = p

unfoldable pub points_at : Text → Points → ℕ
unfolding entry_of
points_at node points = or_zero (entry_of node points)

abbrev pub points_of_node : Option Text → Points → ℕ
points_of_node none points = 0
points_of_node (some n) points = points_at n points

-- Score after PreScore: a nil node and a skipped plugin score 0.
unfoldable pub node_score : NodeInfo → Points → ℕ
unfolding points_at
node_score ni points = points_of_node ni.node points
