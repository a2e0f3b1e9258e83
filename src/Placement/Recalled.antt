-- ===== src/Placement/Recalled.antt =====
-- What recallNodes makes a holder remember.
use kyvernetria.Placement.{
  Running, recall_nodes, kept_nodes, remembered, nodes_of, fade, member, encode, decode,
  max_remembered,
}
use kyvernetria.Placement.Fading.{Current, fade-cases, fade_again, member-fade, All-fade}
use kyvernetria.Text.{Text, text_eq, text_eq_refl, text_eq_iff, text_ltb}
use kyvernetria.Text.Split.{Lacks, join, split-join}
use mathlib.Core.List.{reverse, reverse-reverse}
use kyvernetria.Prelude.Sort.{sort_by, any-sort_by, All-sort_by}
use kyvernetria.Prelude.{
  ℕ, ◌-◌, ◌≤◌, ◌≡◌, ◌≢◌, ◌⊎◌, inl, inr, refl, sym, ap, subst, ◌∙◌, Bool, true, false, not, ◌||◌,
  List, [], ◌∷◌, ◌++◌, arith, length, any, keep, All, Bool-cases, any-append, any-reverse,
  length-reverse, All-append, All-reverse, All-keep, All-mono,
}

-- A home is added or is known.
added_or_known :
    (n : Text) (previous xs : List Text)
    → any (text_eq n) xs ≡ true
    → (any (text_eq n) (keep (λ m. not (any (text_eq m) previous)) xs) || any (text_eq n) previous)
      ≡ true
added_or_known n previous [] h = absurd (cc h)
added_or_known n previous (x ∷ xs) h = elim (Bool-cases (text_eq n x)) [
  | inl same ↦
      let e = (text_eq_iff n x).0 same in
      subst
        (λ m.
          (any (text_eq n) (keep (λ k. not (any (text_eq k) previous)) (m ∷ xs))
            || any (text_eq n) previous)
          ≡ true)
        e (ground (arith, text_eq_refl n))
  | inr other ↦ ground (arith, other, h, added_or_known n previous xs)
]

-- A home is remembered: it was before, or it is added.
member-remembered :
    (homes previous : List Text) (n : Text)
    → member n homes ≡ true
    → member n (remembered homes previous) ≡ true
unfolding remembered member
member-remembered homes previous n h =
    any-append (text_eq n) (sort_by text_ltb (keep (λ m. not (any (text_eq m) previous)) homes))
      previous
    ∙ rw (any-sort_by text_ltb (text_eq n) (keep (λ m. not (any (text_eq m) previous)) homes))
        (added_or_known n previous homes h)

-- recallNodes never forgets where a pod of the holder runs now.
pub home-kept_nodes :
    (homes previous : List Text) (n : Text)
    → member n homes ≡ true
    → member n (kept_nodes homes previous) ≡ true
unfolding kept_nodes member
home-kept_nodes homes previous n h =
    let nodes = remembered homes previous in
    let back = reverse nodes in
    any-reverse (text_eq n) (fade (λ m. member m homes) (length nodes - max_remembered) back)
    ∙ member-fade (λ m. member m homes) n (length nodes - max_remembered) back h
        (any-reverse (text_eq n) nodes ∙ member-remembered homes previous n h)

-- Nothing is remembered but what was, and the homes of now.
pub All-kept_nodes :
    (P : Text → Type 0) (homes previous : List Text)
    → All P homes
    → All P previous
    → All P (kept_nodes homes previous)
unfolding kept_nodes remembered
All-kept_nodes P homes previous hh hp =
    let nodes = remembered homes previous in
    let back = reverse nodes in
    All-reverse P (fade (λ m. member m homes) (length nodes - max_remembered) back) (
      All-fade P (λ m. member m homes) (length nodes - max_remembered) back
        (All-reverse P nodes (
          All-append P (sort_by text_ltb (keep (λ m. not (member m previous)) homes)) previous
            (All-sort_by text_ltb P (keep (λ m. not (member m previous)) homes)
              (All-keep P (λ m. not (member m previous)) homes hh))
            hp)))

-- What is remembered is at most what is allowed, unless pods run on all of it.
kept_nodes-bounded :
    (homes previous : List Text)
    → (length (kept_nodes homes previous) ≤ max_remembered)
      ⊎ Current (λ n. member n homes) (kept_nodes homes previous)
unfolding kept_nodes
kept_nodes-bounded homes previous =
    let nodes = remembered homes previous in
    let current = λ (n : Text). member n homes in
    let faded = fade current (length nodes - max_remembered) (reverse nodes) in
    elim (fade-cases current (length nodes - max_remembered) (reverse nodes)) [
      | inl gone ↦ inl (omega (arith, gone, length-reverse faded, length-reverse nodes))
      | inr left ↦ inr (All-reverse (λ n. member n homes ≡ true) faded left)
    ]

homes-members : (homes : List Text) → Current (λ n. member n homes) homes
unfolding member
homes-members [] = tt
homes-members (x ∷ xs) = (
  ground (arith, text_eq_refl x),
  All-mono (λ n. any (text_eq n) xs ≡ true) (λ n. any (text_eq n) (x ∷ xs) ≡ true) xs
      (λ n h. ground (arith, h)) (homes-members xs),
)

keep-none :
    (p : Text → Bool) (xs : List Text) → All (λ n. p n ≡ true) xs → keep (λ n. not (p n)) xs ≡ []
keep-none p [] h = refl
keep-none p (x ∷ xs) h = ground (arith, h.0, keep-none p xs h.1)

fade_back :
    (current : Text → Bool) (most k : ℕ) (xs : List Text)
    → k ≡ length xs - most
    → (let kept = reverse (fade current k xs) in
        reverse (fade current (length kept - most) (reverse kept)) ≡ kept)
fade_back current most k xs e =
    let faded = fade current k xs in
    let kept = reverse faded in
    ap (λ (ys : List Text). reverse (fade current (length kept - most) ys)) (reverse-reverse faded)
    ∙ ap (λ (n : ℕ). reverse (fade current (n - most) faded)) (length-reverse faded)
    ∙ subst
        (λ (j : ℕ).
          reverse (fade current (length (fade current j xs) - most) (fade current j xs))
          ≡ reverse (fade current j xs))
        (sym e) (ap reverse (fade_again current most xs))

-- With the same pods a second recall changes nothing.
kept_nodes_again :
    (homes previous : List Text)
    → kept_nodes homes (kept_nodes homes previous) ≡ kept_nodes homes previous
unfolding kept_nodes remembered member sort_by
kept_nodes_again homes previous =
    let kept = kept_nodes homes previous in
    let current = λ (n : Text). member n homes in
    let nodes = remembered homes previous in
    let faded = fade current (length nodes - max_remembered) (reverse nodes) in
    let none_new =
      keep-none (λ n. member n kept) homes
        (All-mono (λ n. member n homes ≡ true) (λ n. member n kept ≡ true) homes
          (home-kept_nodes homes previous) (homes-members homes)) in
    ap
      (λ (new : List Text).
        let all = sort_by text_ltb new ++ kept in
        reverse (fade current (length all - max_remembered) (reverse all)))
      none_new
    ∙ fade_back current max_remembered (length nodes - max_remembered) (reverse nodes)
        (ap (λ (n : ℕ). n - max_remembered) (sym (length-reverse nodes)))

-- A name that survives the annotation: it is not empty and holds no comma.
abbrev pub IsNodeName : Text → Type 0
IsNodeName n = (n ≢ []) × Lacks 44 n

join-nonempty :
    (sep : ℕ) (p : Text) (ps : List Text) → p ≢ [] → text_eq (join sep (p ∷ ps)) [] ≡ false
unfolding join
join-nonempty sep [] ps h = absurd (h refl)
join-nonempty sep (c ∷ p) [] h = refl
join-nonempty sep (c ∷ p) (q ∷ ps) h = refl

IsNodeName-Lacks : (nodes : List Text) → All IsNodeName nodes → All (Lacks 44) nodes
IsNodeName-Lacks nodes h = All-mono IsNodeName (Lacks 44) nodes (λ n k. k.1) h

decode-encode_some :
    (p : Text) (ps : List Text) → All IsNodeName (p ∷ ps) → decode (encode (p ∷ ps)) ≡ p ∷ ps
unfolding decode encode
decode-encode_some p ps h =
    rw (join-nonempty 44 p ps h.0.0) (split-join 44 p ps (IsNodeName-Lacks (p ∷ ps) h))

pub decode-encode : (nodes : List Text) → All IsNodeName nodes → decode (encode nodes) ≡ nodes
unfolding decode encode join
decode-encode [] h = refl
decode-encode (p ∷ ps) h = decode-encode_some p ps h

-- A second recall writes what the first wrote.
pub recall_nodes_again :
    (previous : List Text) (running : Running)
    → All IsNodeName previous
    → All IsNodeName (nodes_of running)
    → recall_nodes (decode (recall_nodes previous running)) running ≡ recall_nodes previous running
unfolding recall_nodes
recall_nodes_again previous running hp hr =
    let homes = nodes_of running in
    ap (λ (ps : List Text). encode (kept_nodes homes ps))
      (decode-encode (kept_nodes homes previous) (All-kept_nodes IsNodeName homes previous hr hp))
    ∙ ap encode (kept_nodes_again homes previous)
