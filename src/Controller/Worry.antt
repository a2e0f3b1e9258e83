-- ===== src/Controller/Worry.antt =====
-- kubernetes/overlay/pkg/kyvernetria/controller/worry/worry.go: one check of the requests on every node.
pub mod Check
pub mod Hysteresis
pub mod Restart
pub mod Present
mod Examples
use kyvernetria.Text.{Text, codes, text_eq, text_ltb}
use kyvernetria.Text.Split.{split, join}
use kyvernetria.Prelude.Int.{
  quot_ℤ, ℤ, pos, negsuc, sub_ℕ, leb_ℤ, ltb_ℤ, eqb_ℤ, quot, wrap64, ◌+ℤ◌, ◌*ℤ◌, pos_part, neg_part,
}
use kyvernetria.Prelude.Sort.{sort_by}
use kyvernetria.Prelude.{
  ℕ, suc, ◌-◌, Bool, true, false, not, ◌&&◌, ◌||◌, List, [], ◌∷◌, ◌++◌, Option, none, some, any,
  keep, map,
}

-- ResourceCPU and ResourceMemory.
abbrev pub cpu : Text
cpu = codes "cpu"

abbrev pub memory : Text
memory = codes "memory"

-- WorryThresholdPercent.
abbrev pub worry_threshold : ℤ
worry_threshold = pos 70

-- The threshold less the hysteresis of 5.
abbrev pub relief_threshold : ℤ
relief_threshold = pos 65

-- sets.Set[v1.ResourceName], without order.
abbrev pub Worries : Type 0
Worries = List Text

unfoldable pub has : Text → Worries → Bool
has r state = any (text_eq r) state

unfoldable pub insert : Text → Worries → Worries
unfolding has
insert r state = elim (has r state) [ true ↦ state | false ↦ r ∷ state ]

unfoldable pub delete : Text → Worries → Worries
delete r state = keep (λ x. not (text_eq r x)) state

unfoldable pub insert_all : List Text → Worries → Worries
unfolding insert
insert_all [] state = state
insert_all (r ∷ rs) state = elim (text_eq r []) [
  | true ↦ insert_all rs state
  | false ↦ insert_all rs (insert r state)
]

-- decodeWorried and encodeWorried; 44 is the comma.
unfoldable pub decode_worried : Text → Worries
unfolding split insert_all
decode_worried raw = insert_all (split 44 raw) []

unfoldable pub encode_worried : Worries → Text
unfolding join sort_by text_ltb
encode_worried state = join 44 (sort_by text_ltb state)

pub data Event : Type 0 where
  worried : Text → ℤ → Event
  relieved : Text → ℤ → Event

-- feel: the worries afterwards, and the event that it records.
unfoldable pub feel : Text → ℤ → Worries → Worries × Option Event
unfolding has insert delete
feel r pct state = elim (has r state) [
  | false ↦ elim (leb_ℤ worry_threshold pct) [
    | true ↦ (insert r state, some (worried r pct))
    | false ↦ (state, none)
  ]
  | true ↦ elim (ltb_ℤ pct relief_threshold) [
    | true ↦ (delete r state, some (relieved r pct))
    | false ↦ (state, none)
  ]
]

-- A quantity is its MilliValue.
-- Percent, with the truncated division of int64.
unfoldable pub percent : ℤ → ℤ → ℤ
unfolding ◌*ℤ◌
percent used total = elim (eqb_ℤ total (pos 0)) [
  | true ↦ pos 0
  | false ↦ wrap64 (quot_ℤ (wrap64 (used *ℤ pos 100)) total)
]

-- What is read of a pod: `requests` are PodRequests of the component helpers.
pub record Pod : Type 0 where
  pub node : Text
  pub finished : Bool
  pub requests : List (Text × ℤ)

abbrev pub ResourceList : Type 0
ResourceList = List (Text × ℤ)

unfoldable pub quantity_of : Text → ResourceList → ℤ
quantity_of r [] = pos 0
quantity_of r ((s, q) ∷ rest) = elim (text_eq s r) [ true ↦ q | false ↦ quantity_of r rest ]

unfoldable pub add_quantity : Text → ℤ → ResourceList → ResourceList
unfolding ◌+ℤ◌
add_quantity r q [] = (r, q) ∷ []
add_quantity r q ((s, t) ∷ rest) = elim (text_eq s r) [
  | true ↦ (s, t +ℤ q) ∷ rest
  | false ↦ (s, t) ∷ add_quantity r q rest
]

unfoldable pub add_requests : ResourceList → ResourceList → ResourceList
unfolding add_quantity
add_requests [] sum = sum
add_requests ((r, q) ∷ rs) sum = add_requests rs (add_quantity r q sum)

abbrev pub Requests : Type 0
Requests = List (Text × ResourceList)

unfoldable pub add_pod : Text → ResourceList → Requests → Requests
unfolding add_requests
add_pod node rs [] = (node, add_requests rs []) ∷ []
add_pod node rs ((n, sum) ∷ out) = elim (text_eq n node) [
  | true ↦ (n, add_requests rs sum) ∷ out
  | false ↦ (n, sum) ∷ add_pod node rs out
]

unfoldable pub request_all : List Pod → Requests → Requests
unfolding add_pod
request_all [] out = out
request_all (p ∷ ps) out = elim (text_eq p.node [] || p.finished) [
  | true ↦ request_all ps out
  | false ↦ request_all ps (add_pod p.node p.requests out)
]

-- Requested.
unfoldable pub requested : List Pod → Requests
unfolding request_all
requested pods = request_all pods []

unfoldable pub requested_on : Text → Requests → ResourceList
requested_on node [] = []
requested_on node ((n, sum) ∷ out) = elim (text_eq n node) [
  | true ↦ sum
  | false ↦ requested_on node out
]
