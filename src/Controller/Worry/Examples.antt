-- ===== src/Controller/Worry/Examples.antt =====
-- The theorems on the worry controller at a concrete node.
use kyvernetria.Text.{codes}
use kyvernetria.Prelude.Int.{ℤ, pos}
use kyvernetria.Controller.Worry.{cpu, memory, has, encode_worried, ResourceList}
use kyvernetria.Controller.Worry.Check.{
  Node, Worried, worries_of, state_of, feel_node, stored, check, is_present,
}
use kyvernetria.Controller.Worry.Hysteresis.{
  feel_all, or_before, last_decided, Alternates, feel_all-hysteresis,
}
use kyvernetria.Controller.Worry.Restart.{feel_node-restart}
use kyvernetria.Controller.Worry.Present.{is_known, check-present}
use kyvernetria.Prelude.{◌≡◌, refl, List, [], ◌∷◌, arith}

abbrev load : List ℤ
load = pos 60 ∷ pos 71 ∷ pos 67 ∷ pos 64 ∷ pos 69 ∷ []

feel_all-hysteresis_example :
    (has cpu (feel_all cpu load []).0 ≡ or_before (has cpu []) (last_decided load))
    × Alternates cpu (has cpu []) (feel_all cpu load []).1
feel_all-hysteresis_example = feel_all-hysteresis cpu load []

abbrev sizes : ResourceList
sizes = (cpu, pos 4000) ∷ (memory, pos 8000) ∷ []

abbrev node_a : Node
node_a = record { name = codes "a"; annotation = encode_worried (cpu ∷ []); allocatable = sizes }

abbrev known_worries : Worried
known_worries = (codes "a", cpu ∷ []) ∷ (codes "gone", []) ∷ []

feel_node-restart_example :
    (feel_node ((cpu, pos 3900) ∷ (memory, pos 6000) ∷ []) sizes (state_of node_a [])).1
    ≡ (feel_node
        ((cpu, pos 3900) ∷ (memory, pos 6000) ∷ [])
        sizes
        (state_of node_a known_worries)).1
unfolding worries_of
feel_node-restart_example =
    feel_node-restart node_a ((cpu, pos 3900) ∷ (memory, pos 6000) ∷ []) known_worries (cpu ∷ [])
      refl refl ((λ e. cc, ground arith), tt)

check-present_example :
    is_known (codes "gone") (check (λ n v. stored) (node_a ∷ []) [] known_worries).worried
    ≡ is_present (node_a ∷ []) (codes "gone")
check-present_example = check-present (codes "gone") (λ n v. stored) (node_a ∷ []) [] known_worries
