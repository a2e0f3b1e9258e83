-- ===== src/Admission/NoBruteForce/Refusals.antt =====
-- Which requests NoBruteForce refuses.
use kyvernetria.Admission.NoBruteForce.{
  Pod, succeeded, failed, Operation, create, update, delete, connect, Attributes, Cached, not_ready,
  absent, broken, found, Verdict, allowed, forbidden, Components, immediate, DeleteOptions,
  is_cluster_component, is_running, discussed, judge_cached, judge_delete, judge_eviction,
  judge_pod, judge_old, validate, validate_pods,
}
use kyvernetria.Prelude.{
  ◌≡◌, ◌≢◌, ◌⊎◌, inl, inr, ◌↔◌, refl, Bool, true, false, not, ◌||◌, String, Option, none, some,
  arith, str_eq, str_eq_iff, if◌then◌else◌,
}

-- A pod that would be cut off: it is placed and not finished, it is not going already, and nobody has talked about it.
abbrev pub CutOff : Pod → Type 0
CutOff pod =
    (pod.node_name ≢ "")
    × (pod.phase ≢ succeeded)
    × (pod.phase ≢ failed)
    × (pod.terminating ≡ false)
    × (discussed pod ≡ false)

judge_pod-forbidden_iff : (pod : Pod) → (judge_pod pod ≡ forbidden) ↔ CutOff pod
unfolding judge_pod is_running
judge_pod-forbidden_iff pod = (
  λ h. ground (arith, str_eq_iff pod.node_name ""),
  λ h. ground (arith, str_eq_iff pod.node_name ""),
)

-- An immediate delete of a pod that would be cut off.
abbrev pub Deletes : Operation → Attributes → Type 0
Deletes op a =
    (op ≡ delete)
    × (a.subresource ≡ "")
    × (immediate a.options ≡ true)
    × ((pod : Pod) × (a.old_pod ≡ some pod) × CutOff pod)

-- An immediate eviction of a pod that would be cut off, or that cannot be looked up yet.
abbrev pub Evicts : Cached → Operation → Attributes → Type 0
Evicts c op a =
    (op ≡ create)
    × (a.subresource ≡ "eviction")
    × ((o : Option DeleteOptions) × (a.eviction ≡ some o) × (immediate o ≡ true))
    × ((c ≡ not_ready) ⊎ ((pod : Pod) × (c ≡ found pod) × CutOff pod))

abbrev Spares : Components → Option String → Type 0
Spares n user = is_cluster_component n user ≡ false

judge_old-forbidden :
    (o : Option Pod) → judge_old o ≡ forbidden → (pod : Pod) × (o ≡ some pod) × CutOff pod
judge_old-forbidden none h = absurd (cc h)
judge_old-forbidden (some pod) h = (pod, refl, (judge_pod-forbidden_iff pod).0 h)

judge_cached-forbidden :
    (c : Cached)
    → judge_cached c ≡ forbidden
    → (c ≡ not_ready) ⊎ ((pod : Pod) × (c ≡ found pod) × CutOff pod)
judge_cached-forbidden not_ready h = inl refl
judge_cached-forbidden absent h = cc
judge_cached-forbidden broken h = cc
judge_cached-forbidden (found pod) h = inr (pod, refl, (judge_pod-forbidden_iff pod).0 h)

-- The guard that both branches share.
guarded :
    (i k : Bool) (v : Verdict)
    → (if not i || k then allowed else v) ≡ forbidden
    → (i ≡ true) × (k ≡ false) × (v ≡ forbidden)
guarded true true v h = cc
guarded true false v h = (refl, refl, h)
guarded false true v h = cc
guarded false false v h = cc

judge_eviction-forbidden :
    (n : Components) (c : Cached) (user : Option String) (e : Option (Option DeleteOptions))
    → judge_eviction n c user e ≡ forbidden
    → Spares n user
      × ((o : Option DeleteOptions) × (e ≡ some o) × (immediate o ≡ true))
      × ((c ≡ not_ready) ⊎ ((pod : Pod) × (c ≡ found pod) × CutOff pod))
judge_eviction-forbidden n c user none h = cc
judge_eviction-forbidden n c user (some o) h =
    let (now, other, v) = guarded (immediate o) (is_cluster_component n user) (judge_cached c) h in
    (other, (o, refl, now), judge_cached-forbidden c v)

when_true : (b : Bool) (x y z : Verdict) → (if b then x else y) ≡ z → y ≢ z → (b ≡ true) × (x ≡ z)
when_true true x y z h k = (refl, h)
when_true false x y z h k = absurd (k h)

validate_pods-forbidden :
    (n : Components) (c : Cached) (op : Operation) (a : Attributes)
    → validate_pods n c op a ≡ forbidden
    → Spares n a.user × (Deletes op a ⊎ Evicts c op a)
unfolding validate_pods
validate_pods-forbidden n c delete a h =
    let (sub, v) =
      when_true (str_eq a.subresource "") (judge_delete n a) allowed forbidden h (λ e. cc) in
    let (now, other, w) =
      guarded (immediate a.options) (is_cluster_component n a.user) (judge_old a.old_pod) v in
    (other, inl (refl, (str_eq_iff a.subresource "").0 sub, now, judge_old-forbidden a.old_pod w))
validate_pods-forbidden n c create a h =
    let (sub, v) =
      when_true (str_eq a.subresource "eviction") (judge_eviction n c a.user a.eviction) allowed
        forbidden h (λ e. cc) in
    let (other, now, w) = judge_eviction-forbidden n c a.user a.eviction v in
    (other, inr (refl, (str_eq_iff a.subresource "eviction").0 sub, now, w))
validate_pods-forbidden n c update a h = cc
validate_pods-forbidden n c connect a h = cc

validate-Deletes :
    (n : Components) (c : Cached) (a : Attributes)
    → a.pods ≡ true
    → Spares n a.user
    → Deletes a.operation a
    → validate n c a ≡ forbidden
unfolding validate validate_pods
validate-Deletes n c a pods other (op, sub, now, (pod, old, cut)) =
    simp (pods, op, sub, now, other, old) ((judge_pod-forbidden_iff pod).1 cut)

validate-Evicts :
    (n : Components) (c : Cached) (a : Attributes)
    → a.pods ≡ true
    → Spares n a.user
    → Evicts c a.operation a
    → validate n c a ≡ forbidden
unfolding validate validate_pods
validate-Evicts n c a pods other (op, sub, (o, e, now), inl wait) =
    simp (pods, op, sub, e, now, other, wait) refl
validate-Evicts n c a pods other (op, sub, (o, e, now), inr (pod, hit, cut)) =
    simp (pods, op, sub, e, now, other, hit) ((judge_pod-forbidden_iff pod).1 cut)

-- A request is refused exactly when it is about pods, it does not come from a component of the cluster,
-- and it deletes or evicts at once a pod that is placed, not finished, not terminating and not marked as discussed,
-- or evicts at once while the cache is not ready.
pub validate-forbidden_iff :
    (n : Components) (c : Cached) (a : Attributes)
    → (validate n c a ≡ forbidden) ↔ (
        (a.pods ≡ true)
        × (is_cluster_component n a.user ≡ false)
        × (Deletes a.operation a ⊎ Evicts c a.operation a))
unfolding validate
validate-forbidden_iff n c a = (
  refused,
  λ (pods, other, cases). elim cases [
    | inl deletes ↦ validate-Deletes n c a pods other deletes
    | inr evicts ↦ validate-Evicts n c a pods other evicts
  ],
)
  where
    refused :
        validate n c a ≡ forbidden
        → (a.pods ≡ true)
          × (is_cluster_component n a.user ≡ false)
          × (Deletes a.operation a ⊎ Evicts c a.operation a)
    refused h =
        let (pods, v) =
          when_true a.pods (validate_pods n c a.operation a) allowed forbidden h (λ e. cc) in
        let (other, cases) = validate_pods-forbidden n c a.operation a v in (pods, other, cases)
