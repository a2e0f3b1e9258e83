-- ===== src/Controller/Gestation/Reconcile/Births.antt =====
-- What each step of a pass does to phase, birth, care and scores.
use kyvernetria.Controller.Gestation.State.{
  expecting, due, newborn_care, Spec, Birth, Care, Status, Deployment, Cluster,
}
use kyvernetria.Controller.Gestation.Reserve.{
  ReserveApi, pregnancy, pregnancy_due, release_placenta, phase_of_trimester,
}
use kyvernetria.Controller.Gestation.Birth.{
  DeliverApi, deliver, deliver_held, deliver_to, bear_scaled, bear_covered, bear, covered_with,
  waiting, birth_replicas, create_pdb, birth_at, care_at,
}
use kyvernetria.Gestation.Pregnancy.{trimester}
use kyvernetria.Prelude.Int.{ℤ, pos, wrap32}
use kyvernetria.Prelude.{
  ℕ, ◌≡◌, ◌⊎◌, inl, inr, refl, Bool, true, false, not, [], String, Option, none, some, arith,
  Bool-cases,
}

-- A step that leaves phase, birth, care and scores alone.
pub record Same (g h : Status) : Type 0 where
  pub phase : h.phase ≡ g.phase
  pub birth : h.birth ≡ g.birth
  pub care : h.care ≡ g.care
  pub apgar : h.apgar ≡ g.apgar

-- A birth: newborn care begins, with no score.
pub record Born (h : Status) : Type 0 where
  pub phase : h.phase ≡ newborn_care
  pub birth : (b : Birth) × (h.birth ≡ some b)
  pub care : (c : Care) × (h.care ≡ some c)
  pub apgar : h.apgar ≡ []

abbrev pub Delivers : Status → Status → Type 0
Delivers g h = Same g h ⊎ Born h

bear-Delivers :
    (api : DeliverApi) (now : ℤ) (g : Status) (d : Deployment) (n : ℤ) (added pdb : Bool)
    (k : Cluster)
    → Delivers g (bear api now g d n added pdb k).status
unfolding bear
bear-Delivers api now g d n added pdb k = elim (Bool-cases api.updated) [
  | inr failed ↦ inl (ground arith)
  | inl done ↦ inr (record {
    phase = ground arith;
    birth = (birth_at now d added pdb, ground arith);
    care = (care_at now, ground arith);
    apgar = ground arith;
  })
]

bear_covered-Delivers :
    (api : DeliverApi) (now : ℤ) (g : Status) (d : Deployment) (n : ℤ) (added : Bool)
    (covered : Option Bool) (k : Cluster)
    → Delivers g (bear_covered api now g d n added covered k).status
unfolding bear_covered
bear_covered-Delivers api now g d n added none k = inl (ground arith)
bear_covered-Delivers api now g d n added (some true) k = bear-Delivers api now g d n added false k
bear_covered-Delivers api now g d n added (some false) k = elim (Bool-cases api.pdb_created) [
  | inr failed ↦ simp failed (inl (ground arith))
  | inl done ↦ simp done (bear-Delivers api now g d n added true (create_pdb n k))
]

bear_scaled-Delivers :
    (api : DeliverApi) (now : ℤ) (s : Spec) (g : Status) (d : Deployment) (auto : Option Bool)
    (k : Cluster)
    → Delivers g (bear_scaled api now s g d auto k).status
unfolding bear_scaled
bear_scaled-Delivers api now s g d none k = inl (ground arith)
bear_scaled-Delivers api now s g d (some auto) k =
    bear_covered-Delivers api now g d (birth_replicas s d auto) (not auto)
      (covered_with k.budget api.covered) k

deliver_to-Delivers :
    (api : DeliverApi) (now : ℤ) (s : Spec) (g : Status) (d : Option Deployment) (k : Cluster)
    → Delivers g (deliver_to api now s g d k).status
unfolding deliver_to
deliver_to-Delivers api now s g none k = inl (ground arith)
deliver_to-Delivers api now s g (some d) k = elim (Bool-cases d.usable_selector) [
  | inr unusable ↦ rw unusable (inl (ground arith))
  | inl usable ↦ elim (Bool-cases api.annotated) [
    | inr failed ↦ simp (usable, failed) (inl (ground arith))
    | inl done ↦ simp (usable, done) (bear_scaled-Delivers api now s g d api.autoscaled k)
  ]
]

deliver_held-Delivers :
    (api : DeliverApi) (now : ℤ) (s : Spec) (g : Status) (held : Option ℕ) (k : Cluster)
    → Delivers g (deliver_held api now s g held k).status
unfolding deliver_held
deliver_held-Delivers api now s g none k = inl (ground arith)
deliver_held-Delivers api now s g (some held) k =
    elim (Bool-cases (waiting now g.delivery_started held)) [
      | inl wait ↦ rw wait (inl (ground arith))
      | inr go ↦
          rw go
            (elim (deliver_to-Delivers api now s
              (record g { reserved = wrap32 (pos held); trimester = pos 0 }) k.deployment k) [
                | inl same ↦ inl (ground arith)
                | inr born ↦ inr born
              ])
    ]

pub deliver-Delivers :
    (api : DeliverApi) (now : ℤ) (uid : String) (s : Spec) (g : Status) (k : Cluster)
    → Delivers g (deliver api now uid s g k).status
unfolding deliver
deliver-Delivers api now uid s g k =
    deliver_held-Delivers api now s g (release_placenta api.placenta uid k).1
      (release_placenta api.placenta uid k).0

phase_of_trimester-cases :
    (tri : ℤ) → (phase_of_trimester tri ≡ expecting) ⊎ (phase_of_trimester tri ≡ due)
phase_of_trimester-cases tri = ground arith

-- Before a delivery nothing is born, and the phase is one of two.
abbrev pub Expects : Status → Status → Type 0
Expects g h =
    ((h.phase ≡ expecting) ⊎ (h.phase ≡ due))
    × (h.birth ≡ g.birth)
    × (h.care ≡ g.care)
    × (h.apgar ≡ g.apgar)

pregnancy_due-Expects :
    (api : ReserveApi) (uid : String) (now : ℤ) (s : Spec) (at : Option ℤ) (g : Status)
    (k : Cluster)
    → Expects g (pregnancy_due api uid now s at g k).status
unfolding pregnancy_due
pregnancy_due-Expects api uid now s none g k = (inl refl, refl, refl, refl)
pregnancy_due-Expects api uid now s (some at) g k = elim (Bool-cases api.size_ok) [
  | inr bad ↦ rw bad (inl refl, refl, refl, refl)
  | inl good ↦
      rw good (phase_of_trimester-cases (trimester api.created_at at now), refl, refl, refl)
]

pub pregnancy-Expects :
    (api : ReserveApi) (uid : String) (now : ℤ) (s : Spec) (g : Status) (k : Cluster)
    → Expects g (pregnancy api uid now s g k).status
unfolding pregnancy
pregnancy-Expects api uid now s g k = pregnancy_due-Expects api uid now s api.due_at g k
