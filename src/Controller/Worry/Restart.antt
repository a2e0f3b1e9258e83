-- ===== src/Controller/Worry/Restart.antt =====
-- The worries of a node and its annotation: a controller that starts again goes on where the last one was.
use kyvernetria.Text.{Text, text_eq, text_ltb}
use kyvernetria.Text.Split.{Lacks, split, join, split-join}
use kyvernetria.Prelude.Int.{ℤ}
use kyvernetria.Prelude.Sort.{sort_by, any-sort_by, All-sort_by}
use kyvernetria.Controller.Worry.{
  cpu, memory, Worries, has, insert, insert_all, decode_worried, encode_worried, Event, feel,
  ResourceList, percent, quantity_of,
}
use kyvernetria.Controller.Worry.Check.{
  Node, Worried, worries_of, state_of, feel_node, event_list, or_decoded,
}
use kyvernetria.Controller.Worry.Hysteresis.{has-insert, has-delete}
use kyvernetria.Prelude.{
  ◌≡◌, ◌≢◌, refl, sym, ap, ◌∙◌, false, ◌||◌, Option, some, arith, All, All-mono, List, [], ◌∷◌,
  ◌++◌,
}

-- A resource name that survives the annotation.
abbrev pub IsResourceName : Text → Type 0
IsResourceName r = (r ≢ []) × Lacks 44 r

text_eq-nil : (r : Text) → r ≢ [] → text_eq r [] ≡ false
text_eq-nil [] h = absurd (h refl)
text_eq-nil (c ∷ r) h = refl

has-insert_all :
    (q : Text) (rs : List Text) (s : Worries)
    → All IsResourceName rs
    → has q (insert_all rs s) ≡ (has q rs || has q s)
unfolding insert_all has
has-insert_all q [] s h = refl
has-insert_all q (r ∷ rs) s h =
    rw (text_eq-nil r h.0.0, insert_all)
      (has-insert_all q rs (insert r s) h.1 ∙ ground (arith, has-insert q r s))

decode-names :
    (q : Text) (rs : List Text)
    → All IsResourceName rs
    → has q (insert_all (split 44 (join 44 rs)) []) ≡ has q rs
unfolding has join split insert_all
decode-names q [] h = refl
decode-names q (r ∷ rs) h =
    ap (λ (ps : List Text). has q (insert_all ps []))
      (split-join 44 r rs (All-mono IsResourceName (Lacks 44) (r ∷ rs) (λ n k. k.1) h))
    ∙ has-insert_all q (r ∷ rs) [] h
    ∙ ground arith

-- The annotation holds every worry, and no other.
decode_worried-encode_worried :
    (q : Text) (s : Worries)
    → All IsResourceName s
    → has q (decode_worried (encode_worried s)) ≡ has q s
unfolding decode_worried encode_worried has
decode_worried-encode_worried q s h =
    decode-names q (sort_by text_ltb s) (All-sort_by text_ltb IsResourceName s h)
    ∙ any-sort_by text_ltb (text_eq q) s

abbrev pub Same : Worries → Worries → Type 0
Same s t = (q : Text) → has q s ≡ has q t

feel-Same :
    (r : Text) (pct : ℤ) (s t : Worries)
    → Same s t
    → ((feel r pct s).1 ≡ (feel r pct t).1) × Same (feel r pct s).0 (feel r pct t).0
unfolding feel
feel-Same r pct s t h = (
  ground (arith, h r),
  λ q.
      ground
        (arith, h r, h q, has-insert q r s, has-insert q r t, has-delete q r s, has-delete q r t),
)

feel_node-Same :
    (sum allocatable : ResourceList) (s t : Worries)
    → Same s t
    → (feel_node sum allocatable s).1 ≡ (feel_node sum allocatable t).1
unfolding feel_node
feel_node-Same sum allocatable s t h =
    let used = percent (quantity_of cpu sum) (quantity_of cpu allocatable) in
    let filled = percent (quantity_of memory sum) (quantity_of memory allocatable) in
    let (e, k) = feel-Same cpu used s t h in
    let (f, _) = feel-Same memory filled (feel cpu used s).0 (feel cpu used t).0 k in
    ap (λ (o : Option Event). event_list o ++ event_list (feel memory filled (feel cpu used s).0).1)
      e
    ∙ ap (λ (o : Option Event). event_list (feel cpu used t).1 ++ event_list o) f

-- A controller that has just started, and knows no node, announces for a node whose worries are written down
-- exactly what the controller before it would have.
pub feel_node-restart :
    (node : Node) (sum : ResourceList) (w : Worried) (s : Worries)
    → worries_of node.name w ≡ some s
    → node.annotation ≡ encode_worried s
    → All IsResourceName s
    → (feel_node sum node.allocatable (state_of node [])).1
      ≡ (feel_node sum node.allocatable (state_of node w)).1
unfolding state_of
feel_node-restart node sum w s known written names =
    feel_node-Same sum node.allocatable (decode_worried node.annotation) (state_of node w) (λ q.
      ap (λ (t : Text). has q (decode_worried t)) written
      ∙ decode_worried-encode_worried q s names
      ∙ sym (ap (λ (o : Option Worries). has q (or_decoded node.annotation o)) known))
