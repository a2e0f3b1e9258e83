-- ===== src/Placement/Keys.antt =====
-- The work queue key of a holder.
use kyvernetria.Placement.{Holder, holder_key, parse_holder, holder_of_parts}
use kyvernetria.Text.Split.{Lacks, split-join}
use kyvernetria.Prelude.{◌≡◌, ap, some, [], ◌∷◌}

-- A key gives its holder back if no part of it holds a slash, as names of Kubernetes do not.
pub parse_holder-holder_key :
    (h : Holder)
    → Lacks 47 h.kind
    → Lacks 47 h.scope
    → Lacks 47 h.name
    → parse_holder (holder_key h) ≡ some h
unfolding parse_holder holder_key
parse_holder-holder_key h k s n =
    ap holder_of_parts (split-join 47 h.kind (h.scope ∷ h.name ∷ []) (k, (s, (n, tt))))
