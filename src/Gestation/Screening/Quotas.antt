-- ===== src/Gestation/Screening/Quotas.antt =====
-- screenQuota: what a clear quota check promises for the launch.
use kyvernetria.Text.{Text, codes, text_ltb}
use kyvernetria.Text.Split.{has_prefix}
use kyvernetria.Prelude.Int.{
  ℤ, pos, wrap32, wrap32_fits, ◌+ℤ◌, ◌-ℤ◌, ◌≤ℤ◌, ltb_ℤ, sub_ℕ, pos_part, neg_part, +ℤ_nonneg,
}
use kyvernetria.Prelude.Sort.{sort_by, length-sort_by}
use kyvernetria.Gestation.Screening.Names.{IsClear, append-nil_left}
use kyvernetria.Gestation.Screening.Room.{
  cpu, memory, requests_prefix, ResourceList, quantity_of, repeated, needed, Quota, is_short,
  available, too_little, first_some, or_zero, unprefixed, shortages, judged_quota, screen_quota,
}
use kyvernetria.Prelude.{
  ℕ, zero, suc, ◌+◌, ◌*◌, ◌<◌, ◌≤◌, ltb, ◌≡◌, refl, ap, subst, ◌∙◌, Bool, false, List, [], ◌∷◌,
  ◌++◌, Option, some, arith, length, keep, map, All, Bool-cases, inl, inr,
}

-- Adding a share once for each pod multiplies it.
repeated-mul : (n m : ℕ) → repeated n (pos m) ≡ pos (n * m)
unfolding repeated
repeated-mul zero m = ap pos (omega arith)
repeated-mul (suc n) m =
    ap (λ (a : ℤ). a +ℤ pos m) (repeated-mul n m) ∙ +ℤ_nonneg (n * m) m ∙ ap pos (ground arith)

-- The needs of a launch, multiplied.
abbrev pub multiplied : ℕ → ℕ → ℕ → ResourceList
multiplied n c m =
    (codes "pods", pos n)
    ∷ (cpu, pos (n * c))
    ∷ (requests_prefix ++ cpu, pos (n * c))
    ∷ (memory, pos (n * m))
    ∷ (requests_prefix ++ memory, pos (n * m))
    ∷ []

needed-multiplied :
    (n c m : ℕ) (size : ResourceList)
    → quantity_of cpu size ≡ some (pos c)
    → quantity_of memory size ≡ some (pos m)
    → needed (pos n) size ≡ multiplied n c m
unfolding needed
needed-multiplied n c m size hc hm = rw (hc, hm, repeated-mul n c, repeated-mul n m) refl

keep-nil_none :
    (p : Text × ℤ → Bool) (xs : ResourceList) → keep p xs ≡ [] → All (λ x. p x ≡ false) xs
keep-nil_none p [] h = tt
keep-nil_none p (x ∷ xs) h = elim (Bool-cases (p x)) [
  | inl short ↦ absurd (ground (arith, short, h))
  | inr enough ↦ (enough, keep-nil_none p xs (ground (arith, enough, h)))
]

map-nil : (f : Text × ℤ → Text) (xs : ResourceList) → map f xs ≡ [] → xs ≡ []
map-nil f [] h = refl
map-nil f (x ∷ xs) h = absurd (cc h)

shortages-nil :
    (placenta need : ResourceList) (qs : List Quota)
    → shortages placenta need qs ≡ []
    → All (λ q. All (λ x. is_short q placenta x ≡ false) need) qs
unfolding shortages
shortages-nil placenta need [] h = tt
shortages-nil placenta need (q ∷ qs) h =
    let (here, later) =
      append-nil_left (map (λ (n : Text × ℤ). q.name ++ 32 ∷ n.0) (keep (is_short q placenta) need))
        (shortages placenta need qs) h in
    (
      keep-nil_none (is_short q placenta) need
          (map-nil (λ (n : Text × ℤ). q.name ++ 32 ∷ n.0) (keep (is_short q placenta) need) here),
      shortages-nil placenta need qs later,
    )

sorted-nil : (xs : List Text) → length (sort_by text_ltb xs) ≡ 0 → xs ≡ []
sorted-nil [] h = refl
sorted-nil (x ∷ xs) h = absurd (omega (arith, h, length-sort_by text_ltb (x ∷ xs)))

judged_quota-nil : (xs : List Text) → IsClear (judged_quota xs) → length xs ≡ 0
judged_quota-nil [] h = refl
judged_quota-nil (x ∷ xs) h = absurd (cc h)

-- A quota leaves enough under the name `line`: where it has a hard limit, in its status or else in its spec, what
-- is used and what is wanted do not exceed that limit and the placenta's share of `resource`.
abbrev pub Suffices : Quota → ResourceList → Text → Text → ℕ → Type 0
Suffices q placenta line resource want =
    (limit : ℤ)
    → first_some (quantity_of line q.status_hard) (quantity_of line q.spec_hard) ≡ some limit
    → (pos want +ℤ or_zero (quantity_of line q.used))
      ≤ℤ (limit +ℤ or_zero (quantity_of resource placenta))

-- The five lines under which a quota can limit n pods with the CPU c and the memory m each.
abbrev pub HasRoom : Quota → ResourceList → ℕ → ℕ → ℕ → Type 0
HasRoom q placenta n c m =
    Suffices q placenta (codes "pods") (codes "pods") n
    × Suffices q placenta (codes "cpu") (codes "cpu") (n * c)
    × Suffices q placenta (codes "requests.cpu") (codes "cpu") (n * c)
    × Suffices q placenta (codes "memory") (codes "memory") (n * m)
    × Suffices q placenta (codes "requests.memory") (codes "memory") (n * m)

sub_ℕ-parts : (a b : ℕ) → pos_part (sub_ℕ a b) + b ≡ a + neg_part (sub_ℕ a b)
sub_ℕ-parts a b = ground arith

+ℤ-parts :
    (a b : ℤ)
    → pos_part (a +ℤ b) + neg_part a + neg_part b ≡ pos_part a + pos_part b + neg_part (a +ℤ b)
unfolding ◌+ℤ◌
+ℤ-parts a b = omega (arith, sub_ℕ-parts (pos_part a + pos_part b) (neg_part a + neg_part b))

-ℤ-parts :
    (a b : ℤ)
    → pos_part (a -ℤ b) + neg_part a + pos_part b ≡ pos_part a + neg_part b + neg_part (a -ℤ b)
unfolding ◌-ℤ◌
-ℤ-parts a b = omega (arith, sub_ℕ-parts (pos_part a + neg_part b) (neg_part a + pos_part b))

ltb-false : (a b : ℕ) → ltb a b ≡ false → b ≤ a
ltb-false a b h = ground (arith, h)

not_less :
    (want used limit share : ℤ)
    → ltb_ℤ ((limit -ℤ used) +ℤ share) want ≡ false
    → (want +ℤ used) ≤ℤ (limit +ℤ share)
not_less want used limit share h = omega (
  arith,
  ltb-false _ _ h,
  +ℤ-parts want used,
  +ℤ-parts limit share,
  +ℤ-parts (limit -ℤ used) share,
  -ℤ-parts limit used,
)

not_short-Suffices :
    (q : Quota) (placenta : ResourceList) (line resource : Text) (want : ℕ)
    → unprefixed line ≡ resource
    → is_short q placenta (line, pos want) ≡ false
    → Suffices q placenta line resource want
unfolding is_short available
not_short-Suffices q placenta line resource want e h limit hard =
    not_less (pos want) (or_zero (quantity_of line q.used)) limit
      (or_zero (quantity_of resource placenta))
      (subst
        (λ (r : Text).
          ltb_ℤ ((limit -ℤ or_zero (quantity_of line q.used)) +ℤ or_zero (quantity_of r placenta))
            (pos want)
          ≡ false)
        e (subst (λ (o : Option ℤ). too_little q placenta line (pos want) o ≡ false) hard h))

enough-HasRoom :
    (n c m : ℕ) (placenta : ResourceList) (qs : List Quota)
    → All (λ q. All (λ x. is_short q placenta x ≡ false) (multiplied n c m)) qs
    → All (λ q. HasRoom q placenta n c m) qs
unfolding has_prefix
enough-HasRoom n c m placenta [] h = tt
enough-HasRoom n c m placenta (q ∷ qs) ((p, (cp, (rcp, (me, (rme, _))))), hs) = (
  (
    not_short-Suffices q placenta (codes "pods") (codes "pods") n refl p,
    not_short-Suffices q placenta (codes "cpu") (codes "cpu") (n * c) refl cp,
    not_short-Suffices q placenta (codes "requests.cpu") (codes "cpu") (n * c) refl rcp,
    not_short-Suffices q placenta (codes "memory") (codes "memory") (n * m) refl me,
    not_short-Suffices q placenta (codes "requests.memory") (codes "memory") (n * m) refl rme,
  ),
  enough-HasRoom n c m placenta qs hs,
)

-- A clear quota check means that every quota of the namespace has room for the replicas and the extra one of
-- newborn care beside what is used, with the placenta's share given back: in pods, in CPU and in memory, under
-- each name that a quota uses for them. The size of a pod states its CPU and its memory, neither of them
-- negative, and the number of the pods is an int32.
pub screen_quota-IsClear :
    (r c m : ℕ) (size placenta : ResourceList) (quotas : List Quota)
    → r + 1 < 2147483648
    → quantity_of cpu size ≡ some (pos c)
    → quantity_of memory size ≡ some (pos m)
    → IsClear (screen_quota (pos r) size placenta (some quotas))
    → All (λ q. HasRoom q placenta (r + 1) c m) quotas
unfolding screen_quota
screen_quota-IsClear r c m size placenta quotas fits hc hm clear =
    let pods : wrap32 (pos r +ℤ pos 1) ≡ pos (r + 1) =
      ap wrap32 (+ℤ_nonneg r 1) ∙ wrap32_fits (r + 1) fits in
    let need = ap (λ n. needed n size) pods ∙ needed-multiplied (r + 1) c m size hc hm in
    let nil = sorted-nil (shortages placenta (needed (wrap32 (pos r +ℤ pos 1)) size) quotas) (
      judged_quota-nil
        (sort_by text_ltb (shortages placenta (needed (wrap32 (pos r +ℤ pos 1)) size) quotas))
        clear) in
    enough-HasRoom (r + 1) c m placenta quotas (
      subst (λ (n : ResourceList). All (λ q. All (λ x. is_short q placenta x ≡ false) n) quotas)
        need (shortages-nil placenta (needed (wrap32 (pos r +ℤ pos 1)) size) quotas nil))
