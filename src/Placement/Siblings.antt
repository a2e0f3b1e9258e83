-- ===== src/Placement/Siblings.antt =====
-- The sibling cache of homes against the search without one.
use kyvernetria.Text.{Text, text_eq, text_eq_iff}
use kyvernetria.Placement.{Holder, ReplicaSets, Pod, member, scores}
use kyvernetria.Placement.Schedule.{
  Other, NodeInfo, Siblings, sibling_at, passed_over, same_holder, resolved, asked, look_at,
  occupied, busy_nodes, homes,
}
use kyvernetria.Prelude.{
  ◌≡◌, refl, sym, ap, ◌∙◌, inl, inr, Bool, true, false, not, ◌&&◌, ◌||◌, Option, none, some, arith,
  Bool-cases, Option-cases, All, List, [], ◌∷◌, any,
}

-- A pod that makes its node busy: of the same namespace, another pod, staying, controlled, of the same holder.
abbrev pub has_owner : Other → Bool
has_owner o = elim o.owner_uid [ none ↦ false | some u ↦ true ]

unfoldable pub is_sibling : ReplicaSets → Holder → Pod → Text → Other → Bool
is_sibling rss h pod uid o = not (passed_over pod uid o) && (has_owner o && same_holder rss h o)

-- The busy nodes, by looking at every pod afresh.
unfoldable pub nodes_with_sibling :
    ReplicaSets → Holder → Pod → Text → List Text → List NodeInfo → List Text
unfolding is_sibling
nodes_with_sibling rss h pod uid wanted [] = []
nodes_with_sibling rss h pod uid wanted (ni ∷ nis) = elim ni.node [
  | none ↦ nodes_with_sibling rss h pod uid wanted nis
  | some n ↦ elim (member n wanted && any (is_sibling rss h pod uid) ni.pods) [
    | true ↦ n ∷ nodes_with_sibling rss h pod uid wanted nis
    | false ↦ nodes_with_sibling rss h pod uid wanted nis
  ]
]

module _ (rss : ReplicaSets) (h : Holder) (answer : Text → Bool) where
  -- The pods of one controller have one holder.
  abbrev pub OneHolder : Other → Type 0
  OneHolder o = (u : Text) → o.owner_uid ≡ some u → same_holder rss h o ≡ answer u

  abbrev pub Known : Siblings → Type 0
  Known = All (λ (e : Text × Bool). e.1 ≡ answer e.0)

  -- What a search finds, and that it leaves a cache that holds.
  abbrev pub Finds : Bool → Bool × Siblings → Type 0
  Finds b r = (r.0 ≡ b) × Known r.1

  sibling_at-Known :
      (u : Text) (known : Siblings) (b : Bool)
      → Known known
      → sibling_at u known ≡ some b
      → b ≡ answer u
  unfolding sibling_at
  sibling_at-Known u [] b k e = absurd (cc e)
  sibling_at-Known u ((v, c) ∷ known) b k e = elim (Bool-cases (text_eq v u)) [
    | inl same ↦ ground (arith, e, same, k.0, ap answer ((text_eq_iff v u).0 same))
    | inr other ↦ sibling_at-Known u known b k.1 (ground (arith, e, other))
  ]

  resolved-lem :
      (o : Other) (u : Text) (known : Siblings) (found : Option Bool)
      → sibling_at u known ≡ found
      → same_holder rss h o ≡ answer u
      → Known known
      → Finds (same_holder rss h o) (resolved rss h o u known found)
  resolved-lem o u known none e a k = (refl, (a, k))
  resolved-lem o u known (some b) e a k = (sibling_at-Known u known b k e ∙ sym a, k)

  look_at-lem :
      (pod : Pod) (uid : Text) (o : Other) (known : Siblings)
      → OneHolder o
      → Known known
      → Finds (is_sibling rss h pod uid o) (look_at rss h pod uid o known)
  unfolding look_at is_sibling
  look_at-lem pod uid o known one k = look_cases (passed_over pod uid o) o.owner_uid refl
    where
      look_cases :
          (b : Bool) (m : Option Text)
          → o.owner_uid ≡ m
          → Finds
              (not b && (elim m [ none ↦ false | some u ↦ true ] && same_holder rss h o))
              (elim b [ true ↦ (false, known) | false ↦ asked rss h o known m ])
      look_cases true m e = (refl, k)
      look_cases false none e = (refl, k)
      look_cases false (some u) e = resolved-lem o u known (sibling_at u known) refl (one u e) k

  occupied-lem :
      (pod : Pod) (uid : Text) (os : List Other) (known : Siblings)
      → All OneHolder os
      → Known known
      → Finds (any (is_sibling rss h pod uid) os) (occupied rss h pod uid os known)
  unfolding occupied
  occupied-lem pod uid [] known one k = (refl, k)
  occupied-lem pod uid (o ∷ os) known one k =
      let (e, j) = look_at-lem pod uid o known one.0 k in
      occupied_step (look_at rss h pod uid o known).0 (is_sibling rss h pod uid o) e j
        (occupied-lem pod uid os (look_at rss h pod uid o known).1 one.1 j)
    where
      occupied_step :
          (b c : Bool)
          → b ≡ c
          → Known (look_at rss h pod uid o known).1
          → Finds
              (any (is_sibling rss h pod uid) os)
              (occupied rss h pod uid os (look_at rss h pod uid o known).1)
          → Finds (c || any (is_sibling rss h pod uid) os) (elim b [
            | true ↦ (true, (look_at rss h pod uid o known).1)
            | false ↦ occupied rss h pod uid os (look_at rss h pod uid o known).1
          ])
      occupied_step true c e j rest = (ap (λ d. d || any (is_sibling rss h pod uid) os) e, j)
      occupied_step false c e j rest =
          (rest.0 ∙ ap (λ d. d || any (is_sibling rss h pod uid) os) e, rest.1)

  abbrev pub NodeOneHolder : NodeInfo → Type 0
  NodeOneHolder ni = All OneHolder ni.pods

  busy_nodes-lem :
      (pod : Pod) (uid : Text) (wanted : List Text) (nodes : List NodeInfo) (known : Siblings)
      → All NodeOneHolder nodes
      → Known known
      → busy_nodes rss h pod uid wanted nodes known ≡ nodes_with_sibling rss h pod uid wanted nodes
  unfolding busy_nodes nodes_with_sibling
  busy_nodes-lem pod uid wanted [] known one k = refl
  busy_nodes-lem pod uid wanted (ni ∷ nis) known one k =
      let (e, j) = occupied-lem pod uid ni.pods known one.0 k in
      let same = busy_nodes-lem pod uid wanted nis known one.1 k in
      let after =
        busy_nodes-lem pod uid wanted nis (occupied rss h pod uid ni.pods known).1 one.1 j in
      elim (Option-cases ni.node) [
        | inl nil ↦ rw nil same
        | inr (n, named) ↦ rw named (ground (arith, e, same, after))
      ]

  -- Looking up a controller's answer instead of resolving it again changes no score, as long as the pods
  -- of one controller have one holder.
  pub homes-uncached :
      (pod : Pod) (uid : Text) (r : Text) (remembered : List Text) (nodes : List NodeInfo)
      → All NodeOneHolder nodes
      → homes rss pod uid h (r ∷ remembered) nodes
        ≡ scores (r ∷ remembered) (nodes_with_sibling rss h pod uid (r ∷ remembered) nodes)
  unfolding homes
  homes-uncached pod uid r remembered nodes one =
      ap (scores (r ∷ remembered)) (busy_nodes-lem pod uid (r ∷ remembered) nodes [] one tt)
