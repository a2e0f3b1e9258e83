-- ===== src/Placement/Pods.antt =====
-- kubernetes/overlay/pkg/kyvernetria/controller/placememory/controller.go: which pods count, which of them
-- are remembered already, and what queues a holder.
use kyvernetria.Text.{Text, text_eq}
use kyvernetria.Prelude.Int.{ℤ, negsuc, eqb_ℤ}
use kyvernetria.Placement.{
  Holder, holder_key, holder_for, ReplicaSets, Pod, Ordinals, Running, ordinal, decode,
  decode_ordinals, stateful_set, member,
}
use kyvernetria.Prelude.{Bool, true, false, not, ◌&&◌, List, [], ◌∷◌, ◌++◌, Option, none, some}

-- A pod with what tells whether it runs: the phase is Running, and a deletion has begun.
pub record Placed : Type 0 where
  pub pod : Pod
  pub node : Text
  pub in_phase_running : Bool
  pub deleting : Bool

unfoldable pub running : Placed → Bool
running p = not (text_eq p.node []) && (p.in_phase_running && not p.deleting)

unfoldable pub holder_eq : Holder → Holder → Bool
holder_eq g h = text_eq g.kind h.kind && (text_eq g.scope h.scope && text_eq g.name h.name)

-- A missing key of a map is the empty text.
unfoldable pub node_at : ℤ → Ordinals → Text
node_at o [] = []
node_at o ((p, n) ∷ m) = elim (eqb_ℤ p o) [ true ↦ n | false ↦ node_at o m ]

abbrev pub remembers_ordinal : Text → Ordinals → Option ℤ → Bool
remembers_ordinal node m none = false
remembers_ordinal node m (some o) = text_eq (node_at o m) node

unfoldable pub remembers : Holder → Text → Placed → Bool
unfolding ordinal decode_ordinals decode member node_at
remembers h annotation p = elim (text_eq h.kind stateful_set) [
  | true ↦ remembers_ordinal p.node (decode_ordinals annotation) (ordinal p.pod h.name)
  | false ↦ member p.node (decode annotation)
]

-- The cache of holders: the annotation of one, `none` when it cannot be read.
abbrev pub Cache : Type 0
Cache = Holder → Option Text

abbrev pub known : Holder → Option Text → Placed → Bool
known h none p = false
known h (some annotation) p = remembers h annotation p

abbrev pub queued_unless_known : Cache → Placed → Option Holder → Option Text
queued_unless_known cache p none = none
queued_unless_known cache p (some h) = elim (known h (cache h) p) [
  | true ↦ none
  | false ↦ some (holder_key h)
]

-- enqueuePod: the key that it queues.
unfoldable pub enqueue_pod : ReplicaSets → Cache → Placed → Option Text
unfolding running holder_for remembers holder_key
enqueue_pod rss cache p = elim (running p) [
  | true ↦ queued_unless_known cache p (holder_for rss p.pod)
  | false ↦ none
]

-- out[node] = append(out[node], ord)
unfoldable pub add_pod : Text → ℤ → Running → Running
add_pod node o [] = (node, o ∷ []) ∷ []
add_pod node o ((n, os) ∷ rest) = elim (text_eq n node) [
  | true ↦ (n, os ++ o ∷ []) ∷ rest
  | false ↦ (n, os) ∷ add_pod node o rest
]

-- The ordinal under which a pod counts; -1 where ordinals do not matter.
unfoldable pub counted_as : Holder → Placed → Option ℤ
unfolding ordinal
counted_as h p = elim (text_eq h.kind stateful_set) [
  | true ↦ ordinal p.pod h.name
  | false ↦ some (negsuc 0)
]

abbrev pub is_holder : Holder → Option Holder → Bool
is_holder h none = false
is_holder h (some g) = holder_eq g h

abbrev pub add_counted : Text → Option ℤ → Running → Running
add_counted node none out = out
add_counted node (some o) out = add_pod node o out

unfoldable pub add_if_held : ReplicaSets → Holder → Placed → Running → Running
unfolding running holder_for holder_eq counted_as add_pod
add_if_held rss h p out = elim (running p && is_holder h (holder_for rss p.pod)) [
  | true ↦ add_counted p.node (counted_as h p) out
  | false ↦ out
]

unfoldable pub collect : ReplicaSets → Holder → List Placed → Running → Running
unfolding add_if_held
collect rss h [] out = out
collect rss h (p ∷ ps) out = collect rss h ps (add_if_held rss h p out)

-- runningPods.
unfoldable pub running_pods : ReplicaSets → Holder → List Placed → Running
unfolding collect
running_pods rss h pods = collect rss h pods []
