-- ===== src/Placement/Steady.antt =====
-- The steady state: a running pod is remembered where it runs, so that its events queue nothing.
use kyvernetria.Text.{Text, text_eq, text_eq_refl, text_eq_iff}
use kyvernetria.Prelude.Int.{ℤ, negsuc}
use kyvernetria.Placement.{
  Holder, holder_key, Running, recall, stateful_set, decode, nodes_of, max_remembered, recall_nodes,
  kept_nodes, member, holder_for, ReplicaSets,
}
use kyvernetria.Placement.Recalled.{IsNodeName, home-kept_nodes, decode-encode, All-kept_nodes}
use kyvernetria.Placement.Pods.{
  Placed, Cache, remembers, enqueue_pod, running, running_pods, collect, add_if_held, add_pod,
  holder_eq, counted_as, add_counted, is_holder, queued_unless_known, known,
}
use kyvernetria.Prelude.{
  ◌≡◌, refl, ap, ◌∙◌, Bool, true, false, ◌&&◌, Option, none, some, arith, All, List, [], ◌∷◌, ◌++◌,
  ltb, length,
}

abbrev pub On : Text → Running → Type 0
On n out = member n (nodes_of out) ≡ true

add_pod-On : (n : Text) (o : ℤ) (out : Running) → On n (add_pod n o out)
unfolding add_pod member
add_pod-On n o [] = ground (arith, text_eq_refl n)
add_pod-On n o ((m, os) ∷ out) = ground (arith, add_pod-On n o out, text_eq_iff m n, text_eq_refl n)

add_pod-keeps : (n m : Text) (o : ℤ) (out : Running) → On n out → On n (add_pod m o out)
unfolding add_pod member
add_pod-keeps n m o [] h = absurd (cc h)
add_pod-keeps n m o ((k, os) ∷ out) h = ground (arith, h, add_pod-keeps n m o out)

add_counted-keeps :
    (n m : Text) (o : Option ℤ) (out : Running) → On n out → On n (add_counted m o out)
add_counted-keeps n m none out h = h
add_counted-keeps n m (some o) out h = add_pod-keeps n m o out h

add_if_held-keeps :
    (rss : ReplicaSets) (h : Holder) (p : Placed) (n : Text) (out : Running)
    → On n out
    → On n (add_if_held rss h p out)
unfolding add_if_held
add_if_held-keeps rss h p n out on =
    elim (running p && is_holder h (holder_for rss p.pod))
      as (λ b. On n (elim b [ true ↦ add_counted p.node (counted_as h p) out | false ↦ out ])) [
        | true ↦ add_counted-keeps n p.node (counted_as h p) out on
        | false ↦ on
      ]

collect-keeps :
    (rss : ReplicaSets) (h : Holder) (ps : List Placed) (n : Text) (out : Running)
    → On n out
    → On n (collect rss h ps out)
unfolding collect
collect-keeps rss h [] n out on = on
collect-keeps rss h (p ∷ ps) n out on =
    collect-keeps rss h ps n (add_if_held rss h p out) (add_if_held-keeps rss h p n out on)

collect-append :
    (rss : ReplicaSets) (h : Holder) (ps qs : List Placed) (out : Running)
    → collect rss h (ps ++ qs) out ≡ collect rss h qs (collect rss h ps out)
unfolding collect
collect-append rss h [] qs out = refl
collect-append rss h (p ∷ ps) qs out = collect-append rss h ps qs (add_if_held rss h p out)

holder_eq_refl : (h : Holder) → holder_eq h h ≡ true
unfolding holder_eq
holder_eq_refl h = ground (arith, text_eq_refl h.kind, text_eq_refl h.scope, text_eq_refl h.name)

add_if_held-On :
    (rss : ReplicaSets) (h : Holder) (p : Placed) (out : Running)
    → text_eq h.kind stateful_set ≡ false
    → running p ≡ true
    → holder_for rss p.pod ≡ some h
    → On p.node (add_if_held rss h p out)
unfolding add_if_held counted_as
add_if_held-On rss h p out hk runs held =
    rw (runs, held, holder_eq_refl h, add_if_held, hk, counted_as)
      (add_pod-On p.node (negsuc 0) out)

-- A running pod of the holder counts where it runs.
running_pods-On :
    (rss : ReplicaSets) (h : Holder) (p : Placed) (before after : List Placed)
    → text_eq h.kind stateful_set ≡ false
    → running p ≡ true
    → holder_for rss p.pod ≡ some h
    → On p.node (running_pods rss h (before ++ p ∷ after))
unfolding running_pods collect
running_pods-On rss h p before after hk runs held =
    rw (collect-append rss h before (p ∷ after) []) (
      collect-keeps rss h after p.node (add_if_held rss h p (collect rss h before []))
        (add_if_held-On rss h p (collect rss h before []) hk runs held))

recall-nodes :
    (kind previous : Text) (pods : Running)
    → text_eq kind stateful_set ≡ false
    → ltb max_remembered (length pods) ≡ false
    → recall kind previous pods ≡ recall_nodes (decode previous) pods
unfolding recall
recall-nodes kind previous pods hk few = rw (few, hk) refl

remembers-member :
    (h : Holder) (p : Placed) (annotation : Text)
    → text_eq h.kind stateful_set ≡ false
    → remembers h annotation p ≡ member p.node (decode annotation)
unfolding remembers
remembers-member h p annotation hk = rw (hk, remembers) refl

recall-remembers :
    (h : Holder) (p : Placed) (previous : Text) (pods : Running)
    → text_eq h.kind stateful_set ≡ false
    → All IsNodeName (decode previous)
    → All IsNodeName (nodes_of pods)
    → ltb max_remembered (length pods) ≡ false
    → On p.node pods
    → remembers h (recall h.kind previous pods) p ≡ true
unfolding recall_nodes
recall-remembers h p previous pods hk hp hn few on =
    remembers-member h p (recall h.kind previous pods) hk
    ∙ ap (λ (t : Text). member p.node (decode t)) (recall-nodes h.kind previous pods hk few)
    ∙ ap (member p.node) (
        decode-encode (kept_nodes (nodes_of pods) (decode previous))
          (All-kept_nodes IsNodeName (nodes_of pods) (decode previous) hn hp))
    ∙ home-kept_nodes (nodes_of pods) (decode previous) p.node on

not_queued :
    (cache : Cache) (p : Placed) (h : Holder) (annotation : Text)
    → cache h ≡ some annotation
    → remembers h annotation p ≡ true
    → queued_unless_known cache p (some h) ≡ none
not_queued cache p h annotation c k =
    ap (λ (b : Bool). elim b [ true ↦ none | false ↦ some (holder_key h) ])
      (ap (λ (a : Option Text). known h a p) c ∙ k)

-- Once the memory of a Deployment or a ReplicaSet is written from its pods, no event of one of those pods
-- queues it again, as long as they run on 16 nodes at most.
pub enqueue_pod-recalled :
    (rss : ReplicaSets) (cache : Cache) (h : Holder) (previous : Text) (p : Placed)
    (before after : List Placed)
    → text_eq h.kind stateful_set ≡ false
    → All IsNodeName (decode previous)
    → All IsNodeName (nodes_of (running_pods rss h (before ++ p ∷ after)))
    → ltb max_remembered (length (running_pods rss h (before ++ p ∷ after))) ≡ false
    → running p ≡ true
    → holder_for rss p.pod ≡ some h
    → cache h ≡ some (recall h.kind previous (running_pods rss h (before ++ p ∷ after)))
    → enqueue_pod rss cache p ≡ none
unfolding enqueue_pod
enqueue_pod-recalled rss cache h previous p before after hk hp hn few runs held c =
    let pods = running_pods rss h (before ++ p ∷ after) in
    rw (runs, held, enqueue_pod)
      (not_queued cache p h (recall h.kind previous pods) c (
        recall-remembers h p previous pods hk hp hn few
          (running_pods-On rss h p before after hk runs held)))
