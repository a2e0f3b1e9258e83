-- ===== src/Controller/Worry/Present.antt =====
-- Which nodes a check knows afterwards.
use kyvernetria.Text.{Text, text_eq, text_eq_iff}
use kyvernetria.Controller.Worry.{Worries, Pod, Requests, requested, requested_on}
use kyvernetria.Controller.Worry.Check.{
  Node, Patched, Worried, worries_of, set_worries, state_of, feel_node, check_nodes, is_present,
  forget_gone, check,
}
use kyvernetria.Prelude.{
  ◌≡◌, refl, ap, ◌∙◌, inl, inr, Bool, true, false, ◌&&◌, ◌||◌, none, some, arith, Bool-cases, List,
  [], ◌∷◌, keep,
}

abbrev pub is_known : Text → Worried → Bool
is_known name w = elim (worries_of name w) [ none ↦ false | some s ↦ true ]

is_known-set_worries :
    (name m : Text) (s : Worries) (w : Worried)
    → is_known name (set_worries m s w) ≡ (text_eq m name || is_known name w)
unfolding worries_of set_worries
is_known-set_worries name m s [] = ground arith
is_known-set_worries name m s ((n, t) ∷ w) = elim (Bool-cases (text_eq n m)) [
  | inl same ↦ ground (arith, same, ap (λ (x : Text). text_eq x name) ((text_eq_iff n m).0 same))
  | inr other ↦ ground (arith, other, is_known-set_worries name m s w)
]

is_known-check_nodes :
    (name : Text) (patch : Text → Text → Patched) (sums : Requests) (nodes : List Node)
    (w : Worried)
    → is_known name (check_nodes patch sums nodes w).worried
      ≡ (is_present nodes name || is_known name w)
unfolding check_nodes is_present
is_known-check_nodes name patch sums [] w = refl
is_known-check_nodes name patch sums (node ∷ nodes) w =
    let felt = feel_node (requested_on node.name sums) node.allocatable (state_of node w) in
    is_known-check_nodes name patch sums nodes (set_worries node.name felt.0 w)
    ∙ ground (arith, is_known-set_worries name node.name felt.0 w)

is_known-keep :
    (name : Text) (p : Text → Bool) (w : Worried)
    → is_known name (keep (λ (e : Text × Worries). p e.0) w) ≡ (p name && is_known name w)
unfolding worries_of
is_known-keep name p [] = ground arith
is_known-keep name p ((n, s) ∷ w) = elim (Bool-cases (text_eq n name)) [
  | inl same ↦ ground (arith, same, ap p ((text_eq_iff n name).0 same), is_known-keep name p w)
  | inr other ↦ ground (arith, other, is_known-keep name p w)
]

-- After a check the controller holds worries for exactly the nodes that there are.
pub check-present :
    (name : Text) (patch : Text → Text → Patched) (nodes : List Node) (pods : List Pod)
    (w : Worried)
    → is_known name (check patch nodes pods w).worried ≡ is_present nodes name
unfolding check forget_gone
check-present name patch nodes pods w =
    let c = check_nodes patch (requested pods) nodes w in
    is_known-keep name (is_present nodes) c.worried
    ∙ ap (λ (b : Bool). is_present nodes name && b)
        (is_known-check_nodes name patch (requested pods) nodes w)
    ∙ ground arith
