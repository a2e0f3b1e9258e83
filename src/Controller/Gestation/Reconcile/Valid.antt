-- ===== src/Controller/Gestation/Reconcile/Valid.antt =====
-- What each phase of a gestation says of birth and care, and how far a service has come.
use kyvernetria.Controller.Gestation.Reconcile.Lives.{HasBirth}
use kyvernetria.Controller.Gestation.State.{
  Phase, unset, expecting, due, delivering, newborn_care, needs_caregivers, grown, rolled_back,
  departed, Birth, Care, Status, in_care, in_care_phase, when_some,
}
use kyvernetria.Prelude.{
  ℕ, ◌≤◌, ◌≡◌, ◌⊎◌, inl, inr, refl, sym, ◌∙◌, true, Option, none, some, arith,
}

-- What a phase says of the birth and the care of a status: nothing is born before a delivery, and only
-- a service in newborn care or at home has care.
abbrev pub ValidAt : Phase → Option Birth → Option Care → Type 0
ValidAt unset b c = (b ≡ none) × (c ≡ none)
ValidAt expecting b c = (b ≡ none) × (c ≡ none)
ValidAt due b c = (b ≡ none) × (c ≡ none)
ValidAt delivering b c = (b ≡ none) × (c ≡ none)
ValidAt newborn_care b c = (x : Birth) × (b ≡ some x)
ValidAt needs_caregivers b c = (x : Birth) × (b ≡ some x)
ValidAt grown b c = ((x : Birth) × (b ≡ some x)) × ((y : Care) × (c ≡ some y))
ValidAt rolled_back b c = ((x : Birth) × (b ≡ some x)) × (c ≡ none)
ValidAt departed b c = ((x : Birth) × (b ≡ some x)) × (c ≡ none)

abbrev pub Valid : Status → Type 0
Valid g = ValidAt g.phase g.birth g.care

-- How far a service has come.
abbrev pub rank : Phase → ℕ
rank delivering = 1
rank newborn_care = 2
rank needs_caregivers = 2
rank grown = 3
rank rolled_back = 3
rank departed = 4
rank _ = 0

abbrev pub Keeps : ℕ → Status → Type 0
Keeps n h = Valid h × (n ≤ rank h.phase)

-- A status is judged by its phase, its birth and its care.
pub Keeps-of :
    (n : ℕ) (h : Status) (p : Phase) (b : Option Birth) (c : Option Care)
    → ValidAt p b c
    → n ≤ rank p
    → h.phase ≡ p
    → h.birth ≡ b
    → h.care ≡ c
    → Keeps n h
Keeps-of n h p b c v r e1 e2 e3 = rw (e1, e2, e3) (v, r)

pub born_rank : (p : Phase) (b : Birth) (c : Option Care) → ValidAt p (some b) c → 2 ≤ rank p
born_rank unset b c (e, f) = cc
born_rank expecting b c (e, f) = cc
born_rank due b c (e, f) = cc
born_rank delivering b c (e, f) = cc
born_rank newborn_care b c v = omega arith
born_rank needs_caregivers b c v = omega arith
born_rank grown b c v = omega arith
born_rank rolled_back b c v = omega arith
born_rank departed b c v = omega arith

-- A birth may be written again with what was resolved meanwhile.
pub rebirth :
    (p : Phase) (b d : Birth) (c : Option Care) → ValidAt p (some b) c → ValidAt p (some d) c
rebirth unset b d c (e, f) = cc
rebirth expecting b d c (e, f) = cc
rebirth due b d c (e, f) = cc
rebirth delivering b d c (e, f) = cc
rebirth newborn_care b d c v = (d, refl)
rebirth needs_caregivers b d c v = (d, refl)
rebirth grown b d c (v, w) = ((d, refl), w)
rebirth rolled_back b d c (v, w) = ((d, refl), w)
rebirth departed b d c (v, w) = ((d, refl), w)

pub in_care_phase-cases :
    (p : Phase) → in_care_phase p ≡ true → (p ≡ newborn_care) ⊎ (p ≡ needs_caregivers)
in_care_phase-cases newborn_care h = inl refl
in_care_phase-cases needs_caregivers h = inr refl
in_care_phase-cases unset h = cc
in_care_phase-cases expecting h = cc
in_care_phase-cases due h = cc
in_care_phase-cases delivering h = cc
in_care_phase-cases grown h = cc
in_care_phase-cases rolled_back h = cc
in_care_phase-cases departed h = cc

pub in_care-phase :
    (c : Option Care) (p : Phase) → when_some c (in_care_phase p) ≡ true → in_care_phase p ≡ true
in_care-phase none p h = cc
in_care-phase (some c) p h = h

pub in_care-cases :
    (g : Status) → in_care g ≡ true → (g.phase ≡ newborn_care) ⊎ (g.phase ≡ needs_caregivers)
unfolding in_care
in_care-cases g h = in_care_phase-cases g.phase (in_care-phase g.care g.phase h)

-- A service in care may keep its phase and lose its care.
pub cared-Keeps :
    (n : ℕ) (g h : Status)
    → in_care g ≡ true
    → n ≤ rank g.phase
    → h.phase ≡ g.phase
    → HasBirth h
    → Keeps n h
cared-Keeps n g h i r e (b, f) = elim (in_care-cases g i) [
  | inl new ↦ Keeps-of n h newborn_care (some b) h.care (b, refl) (subst_rank new) (e ∙ new) f refl
  | inr waits ↦
      Keeps-of n h needs_caregivers (some b) h.care (b, refl) (subst_rank waits) (e ∙ waits) f refl
]
  where
    subst_rank : {p : Phase} → g.phase ≡ p → n ≤ rank p
    subst_rank e = rw (sym e) r
