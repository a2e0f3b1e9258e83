-- ===== src/XInactivation/Start/Race.antt =====
-- Any number of starters at once: all that return an allele return the same one, and one at most
-- says that it is the first boot.
use kyvernetria.XInactivation.Disk.{
  Allele, File, absent, unreadable, holds, Disk, found, read, read_file, read_file-allele_text,
}
use kyvernetria.XInactivation.Start.{
  StartOs, starts, Phase, fresh, picked, lost, ended, look, publish, link_into, link_if, reread,
}
use kyvernetria.Prelude.{
  ℕ, ◌≡◌, ◌≢◌, refl, sym, ap, subst, ◌∙◌, ◌⊎◌, inl, inr, Bool, true, false, arith, ◌==◌, ==_iff,
  if◌then◌else◌, Bool-cases,
}

pub record Race : Type 0 where
  pub disk : Disk
  pub phase : ℕ → Phase

abbrev pub move : ℕ → Phase → (ℕ → Phase) → ℕ → Phase
move i p phase j = if j == i then p else phase j

pub data Step : Race → Race → Type 0 where
  looks :
      (r : Race) (i : ℕ) (os : StartOs)
      → r.phase i ≡ fresh
      → Step r (record r { phase = move i (look os r.disk) r.phase })
  publishes :
      (r : Race) (i : ℕ) (os : StartOs) (p : Allele)
      → r.phase i ≡ picked p
      → Step r (record {
        disk = (publish os p r.disk).0;
        phase = move i (publish os p r.disk).1 r.phase;
      })
  rereads :
      (r : Race) (i : ℕ)
      → r.phase i ≡ lost
      → Step r (record r { phase = move i (reread r.disk) r.phase })

pub data Reach (r : Race) : Race → Type 0 where
  here : Reach r r
  next : {s t : Race} → Reach r s → Step s t → Reach r t

record Inv (r : Race) : Type 0 where
  agreed :
      (i : ℕ) (a : Allele) (first : Bool)
      → r.phase i ≡ ended (starts a first)
      → read r.disk ≡ found a
  unique :
      (i j : ℕ) (a b : Allele)
      → r.phase i ≡ ended (starts a true)
      → r.phase j ≡ ended (starts b true)
      → i ≡ j

-- What a starter's own step gives it.
look-lem :
    (os : StartOs) (d : Disk) (a : Allele) (f : Bool)
    → look os d ≡ ended (starts a f)
    → (read d ≡ found a) × (f ≡ false)
unfolding look
look-lem os d a f h = ground arith

reread-lem :
    (d : Disk) (a : Allele) (f : Bool)
    → reread d ≡ ended (starts a f)
    → (read d ≡ found a) × (f ≡ false)
unfolding reread
reread-lem d a f h = ground arith

-- A publication changes nothing and returns no allele, or it creates the choice where none was and
-- returns nothing but its own pick.
abbrev Published : Disk → Allele → Disk × Phase → Type 0
Published d p (e, ph) =
    ((e ≡ d) × ((a : Allele) (f : Bool) → ph ≢ ended (starts a f)))
    ⊎ ((d.choice ≡ absent)
        × (read e ≡ found p)
        × ((a : Allele) (f : Bool) → ph ≡ ended (starts a f) → a ≡ p))

link_into-Published :
    (c : File) (os : StartOs) (p : Allele) (d : Disk)
    → d.choice ≡ c
    → Published d p (link_into c os p d)
link_into-Published absent os p d h =
    inr (h, unfold read in read_file-allele_text p, λ a f e. ground arith)
link_into-Published unreadable os p d h = inl (refl, λ a f e. cc)
link_into-Published (holds t) os p d h = inl (refl, λ a f e. cc)

link_if-Published :
    (m t l : Bool) (os : StartOs) (p : Allele) (d : Disk) → Published d p (link_if m t l os p d)
link_if-Published true true true os p d = link_into-Published d.choice os p d refl
link_if-Published true true false os p d = inl (refl, λ a f e. cc)
link_if-Published true false l os p d = inl (refl, λ a f e. cc)
link_if-Published false t l os p d = inl (refl, λ a f e. cc)

publish-Published :
    (os : StartOs) (p : Allele) (d : Disk) → Published d p ((publish os p d).0, (publish os p d).1)
unfolding publish
publish-Published os p d = link_if-Published os.mkdir os.temp os.link os p d

absent-unread : (d : Disk) (a : Allele) → d.choice ≡ absent → read d ≢ found a
unfolding read read_file
absent-unread d a h e = ground arith

move-same : (i j : ℕ) (p : Phase) (phase : ℕ → Phase) → j ≡ i → move i p phase j ≡ p
move-same i j p phase h = ground arith

-- A starter that moved is at its new phase, another where it was.
move-cases :
    (i j : ℕ) (p : Phase) (phase : ℕ → Phase)
    → ((j ≡ i) × (move i p phase j ≡ p)) ⊎ (move i p phase j ≡ phase j)
move-cases i j p phase = elim (Bool-cases (j == i)) [
  | inl e ↦ inl ((==_iff j i).0 e, ground arith)
  | inr e ↦ inr (ground arith)
]

-- A step of one starter that leaves the disk: it may return what the disk holds, not as the first.
still-Inv :
    (r : Race) (i : ℕ) (p : Phase)
    → ((a : Allele) (f : Bool) → p ≡ ended (starts a f) → (read r.disk ≡ found a) × (f ≡ false))
    → Inv r
    → Inv (record r { phase = move i p r.phase })
still-Inv r i p ok v = record {
  agreed = λ j a f e. elim (move-cases i j p r.phase) [
    | inl (_, m) ↦ (ok a f (sym m ∙ e)).0
    | inr m ↦ v.agreed j a f (sym m ∙ e)
  ];
  unique = λ j k a b e g. elim (move-cases i j p r.phase) [
    | inl (_, m) ↦ absurd (cc ((ok a true (sym m ∙ e)).1))
    | inr m ↦ elim (move-cases i k p r.phase) [
      | inl (_, n) ↦ absurd (cc ((ok b true (sym n ∙ g)).1))
      | inr n ↦ v.unique j k a b (sym m ∙ e) (sym n ∙ g)
    ]
  ];
}

created-Inv :
    (r : Race) (i : ℕ) (e : Disk) (q : Allele) (p : Phase)
    → r.disk.choice ≡ absent
    → read e ≡ found q
    → ((a : Allele) (f : Bool) → p ≡ ended (starts a f) → a ≡ q)
    → Inv r
    → Inv (record { disk = e; phase = move i p r.phase })
created-Inv r i e q p none_yet now own v = record {
  agreed = λ j a f h. elim (move-cases i j p r.phase) [
    | inl (_, m) ↦ now ∙ ap found (sym (own a f (sym m ∙ h)))
    | inr m ↦ absurd (absent-unread r.disk a none_yet (v.agreed j a f (sym m ∙ h)))
  ];
  unique = λ j k a b h g. elim (move-cases i j p r.phase) [
    | inr m ↦ absurd (absent-unread r.disk a none_yet (v.agreed j a true (sym m ∙ h)))
    | inl (x, _) ↦ elim (move-cases i k p r.phase) [
      | inr n ↦ absurd (absent-unread r.disk b none_yet (v.agreed k b true (sym n ∙ g)))
      | inl (y, _) ↦ x ∙ sym y
    ]
  ];
}

Step-Inv : {r s : Race} → Step r s → Inv r → Inv s
Step-Inv (looks r i os h) v = still-Inv r i (look os r.disk) (look-lem os r.disk) v
Step-Inv (rereads r i h) v = still-Inv r i (reread r.disk) (reread-lem r.disk) v
Step-Inv (publishes r i os p h) v = elim (publish-Published os p r.disk) [
  | inl (same, never) ↦
      subst (λ d. Inv (record { disk = d; phase = move i (publish os p r.disk).1 r.phase }))
        (sym same) (still-Inv r i (publish os p r.disk).1 (λ a f e. absurd (never a f e)) v)
  | inr (none_yet, now, own) ↦ created-Inv r i _ p _ none_yet now own v
]

Reach-Inv : {r s : Race} → Reach r s → Inv r → Inv s
Reach-Inv here v = v
Reach-Inv (next path step) v = Step-Inv step (Reach-Inv path v)

-- Nobody has begun.
abbrev pub IsFresh : Race → Type 0
IsFresh r = (i : ℕ) → r.phase i ≡ fresh

IsFresh-Inv : (r : Race) → IsFresh r → Inv r
IsFresh-Inv r h = record {
  agreed = λ i a f e. absurd (cc (h i));
  unique = λ i j a b e g. absurd (cc (h i));
}

module _ (r s : Race) (i j : ℕ) (a b : Allele) (clean : IsFresh r) (path : Reach r s) where
  -- Whatever the directory held and however the starters interleave, two of them that return an
  -- allele return the same one, which is what the node's choice then reads as.
  pub starters_agree :
      (f g : Bool)
      → s.phase i ≡ ended (starts a f)
      → s.phase j ≡ ended (starts b g)
      → (a ≡ b) × (read s.disk ≡ found a)
  starters_agree f g x y =
      let v = Reach-Inv path (IsFresh-Inv r clean) in
      (ground (arith, v.agreed i a f x, v.agreed j b g y), v.agreed i a f x)

  -- However the starters interleave, only one of them can be told that it is the first boot.
  pub first_boot_unique :
      s.phase i ≡ ended (starts a true) → s.phase j ≡ ended (starts b true) → i ≡ j
  first_boot_unique = (Reach-Inv path (IsFresh-Inv r clean)).unique i j a b
