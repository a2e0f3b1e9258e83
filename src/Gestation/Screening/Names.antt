-- ===== src/Gestation/Screening/Names.antt =====
-- References and screenReferences: when all that a pod template needs is there.
use kyvernetria.Gestation.Screening.Needs.{
  needed_secrets_iff, needed_by_iff, Needs, NeedsSecret, needed_secrets, needed_config_maps,
}
use kyvernetria.Text.{Text, text_eq, text_eq_iff, text_eq_refl, text_ltb}
use kyvernetria.Prelude.Sort.{any-sort_by}
use kyvernetria.Gestation.Screening.{
  Template, Exists, Finding, clear, has_name, distinct_names, sorted_keys, missing_names,
  unread_names, is_missing, is_error, judged_references, screen_references, secret_names,
  config_map_names,
}
use kyvernetria.Prelude.{
  ◌≡◌, ◌≢◌, ◌↔◌, refl, sym, ap, ◌∙◌, Bool, true, false, not, ◌&&◌, List, [], ◌∷◌, ◌++◌, Option,
  none, some, arith, any, keep, Bool-cases, inl, inr,
}

has_name-distinct_names :
    (n : Text) (ns : List Text) → has_name n (distinct_names ns) ≡ has_name n ns
unfolding distinct_names has_name
has_name-distinct_names n [] = refl
has_name-distinct_names n (m ∷ ns) = elim (Bool-cases (text_eq n m)) [
  | inl same ↦ ground (
    arith,
    same,
    has_name-distinct_names n ns,
    ap (λ (x : Text). any (text_eq x) (distinct_names ns)) ((text_eq_iff n m).0 same),
  )
  | inr other ↦ ground (arith, other, has_name-distinct_names n ns)
]

has_name-keep :
    (p : Text → Bool) (n : Text) (ns : List Text) → has_name n (keep p ns) ≡ (p n && has_name n ns)
unfolding has_name
has_name-keep p n [] = ground arith
has_name-keep p n (m ∷ ns) = elim (Bool-cases (text_eq n m)) [
  | inl same ↦ ground (arith, same, ap p ((text_eq_iff n m).0 same), has_name-keep p n ns)
  | inr other ↦ ground (arith, other, has_name-keep p n ns)
]

-- sortedKeys keeps every name but the empty one.
has_name-sorted_keys :
    (n : Text) (ns : List Text)
    → has_name n (sorted_keys ns) ≡ (not (text_eq n []) && has_name n ns)
unfolding sorted_keys has_name
has_name-sorted_keys n ns =
    any-sort_by text_ltb (text_eq n) (keep (λ m. not (text_eq m [])) (distinct_names ns))
    ∙ has_name-keep (λ m. not (text_eq m [])) n (distinct_names ns)
    ∙ ap (λ b. not (text_eq n []) && b) (has_name-distinct_names n ns)

keep-none :
    (p : Text → Bool) (ns : List Text)
    → ((n : Text) → has_name n ns ≡ true → p n ≡ false)
    → keep p ns ≡ []
unfolding has_name
keep-none p [] h = refl
keep-none p (m ∷ ns) h =
    rw (h m (ground (arith, text_eq_refl m)), keep)
      (keep-none p ns (λ n k. h n (ground (arith, k))))

keep-nil :
    (p : Text → Bool) (n : Text) (ns : List Text)
    → keep p ns ≡ []
    → has_name n ns ≡ true
    → p n ≡ false
unfolding has_name
keep-nil p n ns e h = elim (Bool-cases (p n)) [
  | inr fails ↦ fails
  | inl passes ↦ absurd (cc (passes, h, has_name-keep p n ns, e))
]

pub append-nil_left : (xs ys : List Text) → xs ++ ys ≡ [] → (xs ≡ []) × (ys ≡ [])
append-nil_left [] ys h = (refl, h)
append-nil_left (x ∷ xs) ys h = absurd (cc h)

abbrev pub IsClear : List Finding → Type 0
IsClear [] = ⊥
IsClear (f ∷ fs) = f.result ≡ clear

judged-IsClear :
    (missing errs all : List Text)
    → IsClear (judged_references missing errs all)
    → (missing ≡ []) × (errs ≡ [])
judged-IsClear (m ∷ ms) errs all h = absurd (cc h)
judged-IsClear [] (e ∷ es) all h = absurd (cc h)
judged-IsClear [] [] all h = (refl, refl)

judged_cleared :
    (missing errs all : List Text)
    → missing ≡ []
    → errs ≡ []
    → IsClear (judged_references missing errs all)
judged_cleared (m ∷ ms) errs all h k = absurd (cc h)
judged_cleared [] (e ∷ es) all h k = absurd (cc k)
judged_cleared [] [] all h k = refl

both_nil : (xs ys : List Text) → xs ≡ [] → ys ≡ [] → xs ++ ys ≡ []
both_nil (x ∷ xs) ys h k = absurd (cc h)
both_nil [] ys h k = k

there : (o : Option Bool) → is_missing o ≡ false → is_error o ≡ false → o ≡ some true
there none h k = absurd (cc k)
there (some true) h k = refl
there (some false) h k = absurd (cc h)

not_nil : (n : Text) → n ≢ [] → text_eq n [] ≡ false
not_nil [] h = absurd (h refl)
not_nil (c ∷ n) h = refl

all_there :
    (exists : Exists) (ns : List Text) (n : Text)
    → missing_names exists (sorted_keys ns) ≡ []
    → unread_names exists (sorted_keys ns) ≡ []
    → n ≢ []
    → has_name n ns ≡ true
    → exists n ≡ some true
unfolding missing_names unread_names
all_there exists ns n m u named h =
    let kept = has_name-sorted_keys n ns ∙ ground (arith, h, not_nil n named) in
    there (exists n) (keep-nil (λ k. is_missing (exists k)) n (sorted_keys ns) m kept)
      (keep-nil (λ k. is_error (exists k)) n (sorted_keys ns) u kept)

some_cleared :
    (exists : Exists) (ns : List Text)
    → ((n : Text) → n ≢ [] → has_name n ns ≡ true → exists n ≡ some true)
    → (missing_names exists (sorted_keys ns) ≡ []) × (unread_names exists (sorted_keys ns) ≡ [])
unfolding missing_names unread_names
some_cleared exists ns h = (
  keep-none (λ n. is_missing (exists n)) (sorted_keys ns) (λ n k. ap is_missing (there_at n k)),
  keep-none (λ n. is_error (exists n)) (sorted_keys ns) (λ n k. ap is_error (there_at n k)),
)
  where
    there_at : (n : Text) → has_name n (sorted_keys ns) ≡ true → exists n ≡ some true
    there_at n k =
        let both : (not (text_eq n []) && has_name n ns) ≡ true =
          sym (has_name-sorted_keys n ns) ∙ k in
        h n (λ e. absurd (ground (arith, both, ap (λ m. text_eq m []) e))) (ground (arith, both))

-- Screening calls the references clear exactly if every Secret and every ConfigMap that the template needs, as
-- Needs says, was looked up and exists. An empty name is not looked up.
pub screen_references-IsClear_iff :
    (secrets config_maps : Exists) (t : Template)
    → IsClear (screen_references secrets config_maps t) ↔ (
        ((n : Text) → n ≢ [] → NeedsSecret n t → secrets n ≡ some true)
        × ((n : Text) → n ≢ [] → Needs (λ s. s.config_map) n t → config_maps n ≡ some true))
unfolding screen_references secret_names config_map_names
screen_references-IsClear_iff secrets config_maps t = (
  λ h.
      (let (m, u) =
          judged-IsClear
            (missing_names secrets (secret_names t)
              ++ missing_names config_maps (config_map_names t))
            (unread_names secrets (secret_names t) ++ unread_names config_maps (config_map_names t))
            (secret_names t ++ config_map_names t) h in
        let (ms, mc) =
          append-nil_left (missing_names secrets (secret_names t))
            (missing_names config_maps (config_map_names t)) m in
        let (us, uc) =
          append-nil_left (unread_names secrets (secret_names t))
            (unread_names config_maps (config_map_names t)) u in
        (
          λ n named need.
              all_there secrets (needed_secrets t) n ms us named ((needed_secrets_iff n t).1 need),
          λ n named need.
              all_there config_maps (needed_config_maps t) n mc uc named
                ((needed_by_iff (λ s. s.config_map) n t).1 need),
        )),
  λ h.
      (let (ms, us) =
          some_cleared secrets (needed_secrets t)
            (λ n named k. h.0 n named ((needed_secrets_iff n t).0 k)) in
        let (mc, uc) =
          some_cleared config_maps (needed_config_maps t)
            (λ n named k. h.1 n named ((needed_by_iff (λ s. s.config_map) n t).0 k)) in
        judged_cleared _ _ (secret_names t ++ config_map_names t) (both_nil _ _ ms mc)
          (both_nil _ _ us uc)),
)
