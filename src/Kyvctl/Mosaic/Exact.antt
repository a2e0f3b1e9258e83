-- ===== src/Kyvctl/Mosaic/Exact.antt =====
-- What Alleles tells of a version is what can be told by comparing it with every other version.
use kyvernetria.XInactivation.Disk.{Allele, xm, xp}
use kyvernetria.Kyvctl.Mosaic.{
  Minor, minor_eq, newer, newest_of, add_minor, seen_of, label, alleles,
}
use kyvernetria.Text.{Text}
use kyvernetria.Prelude.{
  ◌≤◌, ◌≡◌, refl, sym, ap, subst, ◌∙◌, Bool, true, false, not, ◌||◌, List, [], ◌∷◌, map, Option,
  none, some, ltb, any, length, if◌then◌else◌, arith, Bool-cases, inl, inr,
}

abbrev pub is_at : Minor → Option Minor → Bool
is_at m none = false
is_at m (some n) = minor_eq m n

abbrev pub differs : Minor → Option Minor → Bool
differs m none = false
differs m (some n) = not (minor_eq m n)

abbrev pub is_newer : Minor → Option Minor → Bool
is_newer m none = false
is_newer m (some n) = newer n m

abbrev pub told_minor : List (Option Minor) → Option Minor → Option Allele
told_minor ps none = none
told_minor ps (some m) =
    if any (differs m) ps then (if any (is_newer m) ps then some xp else some xm) else none

newest_of-least :
    (x : Minor) (ps : List (Option Minor)) (n : Minor)
    → newer x n ≡ false
    → newer x (newest_of ps n) ≡ false
unfolding newest_of
newest_of-least x [] n h = h
newest_of-least x (none ∷ ps) n h = newest_of-least x ps n h
newest_of-least (a, b) (some (c, d) ∷ ps) (e, f) h =
    newest_of-least (a, b) ps (if newer (c, d) (e, f) then (c, d) else (e, f)) (ground (arith, h))

newest_of-newest :
    (ps : List (Option Minor)) (n : Minor) → any (is_newer (newest_of ps n)) ps ≡ false
unfolding newest_of
newest_of-newest [] n = refl
newest_of-newest (none ∷ ps) n = newest_of-newest ps n
newest_of-newest (some (c, d) ∷ ps) (e, f) =
    let next : Minor = if newer (c, d) (e, f) then (c, d) else (e, f) in
    let least = newest_of-least (c, d) ps next (ground arith) in
    rw (least) (newest_of-newest ps next)

newest_of-old :
    (ps : List (Option Minor)) (n : Minor)
    → (minor_eq (newest_of ps n) n || any (is_at (newest_of ps n)) ps) ≡ true
unfolding newest_of
newest_of-old [] (e, f) = ground arith
newest_of-old (none ∷ ps) n = newest_of-old ps n
newest_of-old (some (c, d) ∷ ps) (e, f) =
    let next : Minor = if newer (c, d) (e, f) then (c, d) else (e, f) in
    ground (arith, newest_of-old ps next)

at-not_newer :
    (m r : Minor) (ps : List (Option Minor))
    → any (is_at m) ps ≡ true
    → any (is_newer r) ps ≡ false
    → newer m r ≡ false
at-not_newer m r [] h k = ground (arith, h)
at-not_newer m r (none ∷ ps) h k = at-not_newer m r ps h k
at-not_newer (a, b) (c, d) (some (e, f) ∷ ps) h k =
    ground (arith, h, k, at-not_newer (a, b) (c, d) ps)

minor_eq_refl : (m : Minor) → minor_eq m m ≡ true
minor_eq_refl (a, b) = ground arith

eq_of-minor_eq : (m n : Minor) → minor_eq m n ≡ true → m ≡ n
eq_of-minor_eq (a, b) (c, d) h = ground (arith, h)

neither-minor_eq : (m n : Minor) → newer m n ≡ false → newer n m ≡ false → minor_eq m n ≡ true
neither-minor_eq (a, b) (c, d) h k = ground (arith, h, k)

-- The newest minor is the one that no other is newer than.
newest_of-exact :
    (m : Minor) (ps : List (Option Minor))
    → any (is_at m) ps ≡ true
    → minor_eq m (newest_of ps (0, 0)) ≡ not (any (is_newer m) ps)
newest_of-exact m ps h = elim (Bool-cases (any (is_newer m) ps)) [
  | inl over ↦ elim (Bool-cases (minor_eq m (newest_of ps (0, 0)))) [
    | inl top ↦
        let same = eq_of-minor_eq m (newest_of ps (0, 0)) top in
        let clear =
          subst (λ r. any (is_newer r) ps ≡ false) (sym same) (newest_of-newest ps (0, 0)) in
        ground (arith, over, clear)
    | inr below ↦ below ∙ ap not (sym over)
  ]
  | inr clear ↦
      neither-minor_eq m (newest_of ps (0, 0)) (at-not_newer m _ ps h (newest_of-newest ps (0, 0)))
        (not_newer (newest_of ps (0, 0)) (newest_of-old ps (0, 0)) clear)
      ∙ ap not (sym clear)
]
  where
    not_newer :
        (r : Minor)
        → (minor_eq r (0, 0) || any (is_at r) ps) ≡ true
        → any (is_newer m) ps ≡ false
        → newer r m ≡ false
    not_newer r old clear = elim (Bool-cases (any (is_at r) ps)) [
      | inl at ↦ at-not_newer r m ps at clear
      | inr gone ↦ least r m (ground (arith, old, gone))
    ]
      where
        least : (r m : Minor) → minor_eq r (0, 0) ≡ true → newer r m ≡ false
        least (a, b) (c, d) e = ground (arith, e)

add_minor-old :
    (x m : Minor) (seen : List Minor)
    → any (minor_eq x) seen ≡ true
    → any (minor_eq x) (add_minor m seen) ≡ true
add_minor-old x m seen h = ground (arith, h)

add_minor-new : (m : Minor) (seen : List Minor) → any (minor_eq m) (add_minor m seen) ≡ true
add_minor-new m seen = ground (arith, minor_eq_refl m)

seen_of-old :
    (x : Minor) (ps : List (Option Minor)) (seen : List Minor)
    → any (minor_eq x) seen ≡ true
    → any (minor_eq x) (seen_of ps seen) ≡ true
unfolding seen_of
seen_of-old x [] seen h = h
seen_of-old x (none ∷ ps) seen h = seen_of-old x ps seen h
seen_of-old x (some m ∷ ps) seen h = seen_of-old x ps (add_minor m seen) (add_minor-old x m seen h)

seen_of-at :
    (x : Minor) (ps : List (Option Minor)) (seen : List Minor)
    → any (is_at x) ps ≡ true
    → any (minor_eq x) (seen_of ps seen) ≡ true
unfolding seen_of
seen_of-at x [] seen h = ground (arith, h)
seen_of-at x (none ∷ ps) seen h = seen_of-at x ps seen h
seen_of-at x (some m ∷ ps) seen h = elim (Bool-cases (minor_eq x m)) [
  | inl same ↦ seen_of-old x ps (add_minor m seen) (
      subst (λ y. any (minor_eq y) (add_minor m seen) ≡ true) (sym (eq_of-minor_eq x m same))
        (add_minor-new m seen))
  | inr other ↦ seen_of-at x ps (add_minor m seen) (ground (arith, h, other))
]

two_seen :
    (x y : Minor) (seen : List Minor)
    → any (minor_eq x) seen ≡ true
    → any (minor_eq y) seen ≡ true
    → minor_eq x y ≡ false
    → 2 ≤ length seen
two_seen x y [] h k apart = ground (arith, h)
two_seen x y (z ∷ []) h k apart =
    let e = eq_of-minor_eq x z (ground (arith, h)) in
    let f = eq_of-minor_eq y z (ground (arith, k)) in
    let same = subst (λ w. minor_eq x w ≡ true) (e ∙ sym f) (minor_eq_refl x) in
    ground (arith, same, apart)
two_seen x y (z ∷ w ∷ seen) h k apart = omega arith

one_seen :
    (m : Minor) (ps : List (Option Minor)) (seen : List Minor)
    → any (differs m) ps ≡ false
    → any (λ n. not (minor_eq m n)) seen ≡ false
    → length seen ≤ 1
    → length (seen_of ps seen) ≤ 1
unfolding seen_of
one_seen m [] seen h k few = few
one_seen m (none ∷ ps) seen h k few = one_seen m ps seen h k few
one_seen m (some n ∷ ps) [] h k few =
    one_seen m ps (n ∷ []) (ground (arith, h)) (ground (arith, h)) (omega arith)
one_seen m (some n ∷ ps) (z ∷ []) h k few =
    let e = eq_of-minor_eq m n (ground (arith, h)) in
    let f = eq_of-minor_eq m z (ground (arith, k)) in
    let same = subst (λ w. minor_eq n w ≡ true) (sym e ∙ f) (minor_eq_refl n) in
    rw same (one_seen m ps (z ∷ []) (ground (arith, h)) k few)
one_seen m (some n ∷ ps) (z ∷ w ∷ seen) h k few = ground (arith, few)

other_at :
    (m : Minor) (ps : List (Option Minor))
    → any (differs m) ps ≡ true
    → (x : Minor) × (any (is_at x) ps ≡ true) × (minor_eq m x ≡ false)
other_at m [] h = ground (arith, h)
other_at m (none ∷ ps) h = other_at m ps h
other_at m (some n ∷ ps) h = elim (Bool-cases (minor_eq m n)) [
  | inl same ↦
      let (x, at, apart) = other_at m ps (ground (arith, h, same)) in (x, ground (arith, at), apart)
  | inr apart ↦ (n, ground (arith, minor_eq_refl n), apart)
]

minors-few :
    (m : Minor) (ps : List (Option Minor))
    → any (is_at m) ps ≡ true
    → ltb (length (seen_of ps [])) 2 ≡ not (any (differs m) ps)
minors-few m ps at = elim (Bool-cases (any (differs m) ps)) [
  | inl mixed ↦
      let (x, there, apart) = other_at m ps mixed in
      let two =
        two_seen m x (seen_of ps []) (seen_of-at m ps [] at) (seen_of-at x ps [] there) apart in
      ground (arith, two, mixed)
  | inr alike ↦ let one = one_seen m ps [] alike refl (omega arith) in ground (arith, one, alike)
]

label-told :
    (ps : List (Option Minor)) (p : Option Minor)
    → ((m : Minor) → p ≡ some m → any (is_at m) ps ≡ true)
    → label (length (seen_of ps [])) (newest_of ps (0, 0)) p ≡ told_minor ps p
label-told ps none within = refl
label-told ps (some m) within =
    let at = within m refl in
    rw (minors-few m ps at, newest_of-exact m ps at)
      (flipped (any (differs m) ps) (any (is_newer m) ps))
  where
    flipped :
        (a b : Bool)
        → (if not a then none else (if not b then some xm else some xp))
          ≡ (if a then (if b then some xp else some xm) else none)
    flipped true true = refl
    flipped true false = refl
    flipped false b = refl

labels-told :
    (ps qs : List (Option Minor))
    → ((m : Minor) → any (is_at m) qs ≡ true → any (is_at m) ps ≡ true)
    → map (label (length (seen_of ps [])) (newest_of ps (0, 0))) qs ≡ map (told_minor ps) qs
labels-told ps [] within = refl
labels-told ps (q ∷ qs) within =
    rw
      (
        label-told ps q (λ m e. within m (first m q e)),
        labels-told ps qs (λ m h. within m (ground (arith, h))),
      )
      refl
  where
    first : (m : Minor) (o : Option Minor) → o ≡ some m → any (is_at m) (o ∷ qs) ≡ true
    first m o e =
        subst (λ (r : Option Minor). any (is_at m) (r ∷ qs) ≡ true) (sym e)
          (ground (arith, minor_eq_refl m))

-- A node is told by comparing its minor with that of every other: it is Xm if some minor differs from its own
-- and none is newer, Xp if one is newer, and "?" if there is only one minor or its version cannot be parsed.
pub alleles-told :
    (minor_of : Text → Option Minor) (versions : List Text)
    → (alleles minor_of versions).0
      ≡ map (told_minor (map minor_of versions)) (map minor_of versions)
unfolding alleles
alleles-told minor_of versions =
    labels-told (map minor_of versions) (map minor_of versions) (λ m h. h)
