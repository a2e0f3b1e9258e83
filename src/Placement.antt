-- ===== src/Placement.antt =====
-- kubernetes/overlay/pkg/kyvernetria/placement/placement.go: which object remembers where a pod lived,
-- how the memory is written, and what a holder should remember.
pub mod Fading
pub mod Recalled
pub mod Pods
pub mod Sync
pub mod Atomic
pub mod Settled
pub mod Steady
pub mod Schedule
pub mod Siblings
pub mod Points
pub mod Keys
mod Examples
use kyvernetria.Text.{Text, codes, text_eq, text_ltb}
use kyvernetria.Text.Split.{split, join, cut, has_prefix}
use kyvernetria.Text.Decimal.{parse_int, format_int}
use kyvernetria.Prelude.Int.{ℤ, pos, negsuc, ltb_ℤ, leb_ℤ, eqb_ℤ, ◌-ℤ◌, ◌*ℤ◌}
use kyvernetria.Prelude.Sort.{sort_by}
use mathlib.Core.List.{reverse}
use kyvernetria.Prelude.{
  ℕ, zero, suc, ◌-◌, ◌+◌, ◌*◌, Bool, true, false, not, ◌&&◌, ◌||◌, List, [], ◌∷◌, ◌++◌, map, Option,
  none, some, if◌then◌else◌, ltb, length, drop, any, keep,
}

-- The three constants Deployment, ReplicaSet and StatefulSet, and any other kind.
abbrev pub deployment : Text
deployment = codes "Deployment"

abbrev pub replica_set : Text
replica_set = codes "ReplicaSet"

abbrev pub stateful_set : Text
stateful_set = codes "StatefulSet"

pub record Holder : Type 0 where
  pub kind : Text
  pub scope : Text
  pub name : Text

-- String, the work queue key; 47 is the slash.
unfoldable pub holder_key : Holder → Text
unfolding join
holder_key h = join 47 (h.kind ∷ h.scope ∷ h.name ∷ [])

abbrev pub holder_of_parts : List Text → Option Holder
holder_of_parts (k ∷ s ∷ n ∷ []) = some (record { kind = k; scope = s; name = n })
holder_of_parts _ = none

unfoldable pub parse_holder : Text → Option Holder
unfolding split
parse_holder key = holder_of_parts (split 47 key)

-- The controller in an object's owner references; `group` is `none` where the API version cannot be read.
pub record Owner : Type 0 where
  pub group : Option Text
  pub kind : Text
  pub name : Text

abbrev pub is_apps : Option Text → Bool
is_apps none = false
is_apps (some g) = text_eq g (codes "apps")

unfoldable pub apps_owner : Option Owner → Option Owner
apps_owner none = none
apps_owner (some o) = if is_apps o.group then some o else none

-- What is read of a pod.
pub record Pod : Type 0 where
  pub scope : Text
  pub name : Text
  pub owner : Option Owner
  pub pod_index : Option Text

-- The lister of ReplicaSets: the controller of one, by its namespace and name; `none` for an error.
abbrev pub ReplicaSets : Type 0
ReplicaSets = Text → Text → Option (Option Owner)

abbrev pub deployment_of : Option Owner → Option Text
deployment_of none = none
deployment_of (some o) = if text_eq o.kind deployment then some o.name else none

abbrev pub owning_deployment : Option (Option Owner) → Option Text
owning_deployment none = none
owning_deployment (some o) = deployment_of (apps_owner o)

abbrev pub replica_set_holder : Text → Text → Option Text → Holder
replica_set_holder scope name none = record { kind = replica_set; scope = scope; name = name }
replica_set_holder scope name (some d) = record { kind = deployment; scope = scope; name = d }

abbrev pub holder_of_owner : ReplicaSets → Text → Option Owner → Option Holder
holder_of_owner rss scope none = none
holder_of_owner rss scope (some o) =
    if text_eq o.kind stateful_set
    then some (record { kind = stateful_set; scope = scope; name = o.name })
    else (if text_eq o.kind replica_set
        then some (replica_set_holder scope o.name (owning_deployment (rss scope o.name)))
        else none)

-- HolderFor.
unfoldable pub holder_for : ReplicaSets → Pod → Option Holder
unfolding apps_owner
holder_for rss pod = holder_of_owner rss pod.scope (apps_owner pod.owner)

abbrev pub not_negative : Option ℤ → Option ℤ
not_negative none = none
not_negative (some n) = if leb_ℤ (pos 0) n then some n else none

abbrev pub index_or_suffix : Text → Text → Option Text → Option Text
index_or_suffix prefix name (some raw) = some raw
index_or_suffix prefix name none =
    if has_prefix name prefix then some (drop (length prefix) name) else none

abbrev pub ordinal_of : Option Text → Option ℤ
ordinal_of none = none
ordinal_of (some raw) = not_negative (parse_int raw)

-- Ordinal; 45 is the dash.
unfoldable pub ordinal : Pod → Text → Option ℤ
unfolding has_prefix parse_int
ordinal pod set = ordinal_of (index_or_suffix (set ++ 45 ∷ []) pod.name pod.pod_index)

-- Decode and Encode; 44 is the comma.
unfoldable pub decode : Text → List Text
unfolding split
decode raw = if text_eq raw [] then [] else split 44 raw

unfoldable pub encode : List Text → Text
unfolding join
encode nodes = join 44 nodes

-- A StatefulSet's memory, a map from ordinals to nodes.
abbrev pub Ordinals : Type 0
Ordinals = List (ℤ × Text)

unfoldable pub set_at : ℤ → Text → Ordinals → Ordinals
set_at o n [] = (o, n) ∷ []
set_at o n ((p, m) ∷ rest) = elim (eqb_ℤ p o) [
  | true ↦ (o, n) ∷ rest
  | false ↦ (p, m) ∷ set_at o n rest
]

abbrev pub pair_with : Text → Option ℤ → Option (ℤ × Text)
pair_with node none = none
pair_with node (some n) = if text_eq node [] then none else some (n, node)

abbrev pub pair_of_cut : Option (Text × Text) → Option (ℤ × Text)
pair_of_cut none = none
pair_of_cut (some (ord, node)) = pair_with node (parse_int ord)

-- One pair of the annotation; 61 is the equals sign.
unfoldable pub pair_of : Text → Option (ℤ × Text)
unfolding cut parse_int
pair_of t = pair_of_cut (cut 61 t)

abbrev pub set_pair : Option (ℤ × Text) → Ordinals → Ordinals
set_pair none m = m
set_pair (some (o, n)) m = set_at o n m

unfoldable pub set_pairs : List Text → Ordinals → Ordinals
unfolding pair_of set_at
set_pairs [] m = m
set_pairs (t ∷ ts) m = set_pairs ts (set_pair (pair_of t) m)

-- DecodeOrdinals.
unfoldable pub decode_ordinals : Text → Ordinals
unfolding set_pairs split
decode_ordinals raw = if text_eq raw [] then [] else set_pairs (split 44 raw) []

abbrev pub earlier : ℤ × Text → ℤ × Text → Bool
earlier (o, n) (p, m) = ltb_ℤ o p

abbrev pub pair_text : ℤ × Text → Text
pair_text (o, n) = format_int o ++ 61 ∷ n

-- EncodeOrdinals.
unfoldable pub encode_ordinals : Ordinals → Text
unfolding join format_int sort_by
encode_ordinals m = join 44 (map pair_text (sort_by earlier m))

-- MaxRememberedNodes.
abbrev pub max_remembered : ℕ
max_remembered = 16

-- Where the running pods of a holder are: the nodes, each with the ordinals of the pods there.
abbrev pub Running : Type 0
Running = List (Text × List ℤ)

unfoldable pub member : Text → List Text → Bool
member n xs = any (text_eq n) xs

abbrev pub nodes_of : Running → List Text
nodes_of running = map (λ (r : Text × List ℤ). r.0) running

-- The loop that fades the oldest homes, from the end of the list; `excess` is how many are too many.
unfoldable pub fade : (Text → Bool) → ℕ → List Text → List Text
fade current zero xs = xs
fade current (suc excess) [] = []
fade current (suc excess) (x ∷ xs) = elim (current x) [
  | true ↦ x ∷ fade current (suc excess) xs
  | false ↦ fade current excess xs
]

-- What is running where nothing is remembered yet, in order, before what is remembered.
unfoldable pub remembered : List Text → List Text → List Text
unfolding member sort_by text_ltb
remembered homes previous = sort_by text_ltb (keep (λ n. not (member n previous)) homes) ++ previous

unfoldable pub kept_nodes : List Text → List Text → List Text
unfolding remembered fade member
kept_nodes homes previous =
    let nodes = remembered homes previous in
    reverse (fade (λ n. member n homes) (length nodes - max_remembered) (reverse nodes))

-- recallNodes.
unfoldable pub recall_nodes : List Text → Running → Text
unfolding kept_nodes encode
recall_nodes previous running = encode (kept_nodes (nodes_of running) previous)

unfoldable pub set_here : Text → List ℤ → Ordinals → Ordinals
unfolding set_at
set_here node [] m = m
set_here node (o ∷ os) m = set_here node os (set_at o node m)

unfoldable pub set_running : Running → Ordinals → Ordinals
unfolding set_here
set_running [] m = m
set_running ((node, os) ∷ rest) m = set_running rest (set_here node os m)

unfoldable pub is_current : Running → ℤ → Bool
is_current running o = any (λ (r : Text × List ℤ). any (eqb_ℤ o) r.1) running

-- The loop over the ordinals from the highest on, which forgets the ones without a running pod.
unfoldable pub forget : (ℤ → Bool) → ℕ → Ordinals → Ordinals
forget current zero m = m
forget current (suc excess) [] = []
forget current (suc excess) ((o, n) ∷ m) = elim (current o) [
  | true ↦ (o, n) ∷ forget current (suc excess) m
  | false ↦ forget current excess m
]

abbrev pub later : ℤ × Text → ℤ × Text → Bool
later (o, n) (p, m) = ltb_ℤ p o

-- recallOrdinals.
unfoldable pub recall_ordinals : Ordinals → Running → Text
unfolding set_running forget is_current encode_ordinals sort_by
recall_ordinals m running =
    let all = set_running running m in
    encode_ordinals (forget (is_current running) (length all - max_remembered) (sort_by later all))

-- Recall.
unfoldable pub recall : Text → Text → Running → Text
unfolding recall_ordinals recall_nodes decode_ordinals decode
recall kind previous running =
    if ltb max_remembered (length running)
    then []
    else (if text_eq kind stateful_set
        then recall_ordinals (decode_ordinals previous) running
        else recall_nodes (decode previous) running)

-- scoreAt, where 5 * i does not overflow.
unfoldable pub score_at : ℕ → ℕ
score_at i = if ltb (100 - 5 * i) 50 then 50 else 100 - 5 * i

unfoldable pub score_from : ℕ → List Text → Text → ℕ
unfolding score_at
score_from i [] node = 0
score_from i (n ∷ ns) node = elim (text_eq n node) [
  | true ↦ score_at i
  | false ↦ score_from (i + 1) ns node
]

-- Score.
unfoldable pub score : List Text → Text → ℕ
unfolding score_from
score nodes node = score_from 0 nodes node

-- Scores; an entry that comes later replaces an earlier one of the same node.
unfoldable pub scores_from : ℕ → List Text → List Text → List (Text × ℕ)
unfolding score_at member
scores_from i [] busy = []
scores_from i (n ∷ ns) busy = elim (member n busy) [
  | true ↦ scores_from (i + 1) ns busy
  | false ↦ (n, score_at i) ∷ scores_from (i + 1) ns busy
]

unfoldable pub scores : List Text → List Text → List (Text × ℕ)
unfolding scores_from
scores nodes busy = scores_from 0 nodes busy
