-- ===== src/Controller/Gestation/Reconcile/Lost.antt =====
-- controller/gestation/birth.go and care.go: a rollback that fails half-way.
use kyvernetria.Controller.Gestation.Reconcile.{
  Inputs, delivery_asked, begin_delivery, unborn_or_born, dispatch, answered, same_time, reconcile,
}
use kyvernetria.Controller.Gestation.Reconcile.Lives.{Resolved, resolve_revisions-Resolved}
use kyvernetria.Controller.Gestation.State.{
  newborn_care, departed, Spec, Birth, Care, Status, Deployment, Cluster, Pass, in_care,
}
use kyvernetria.Controller.Gestation.Score.{ScoreApi, resolve_revisions}
use kyvernetria.Controller.Gestation.Nursery.{
  CareApi, after_birth, tend_born, care_if_newborn, score_if_newborn, depart, departing,
}
use kyvernetria.Prelude.Int.{ℤ, ltb_ℤ}
use kyvernetria.Prelude.{
  ◌≡◌, ◌⊎◌, inl, inr, refl, sym, subst, ap, ◌∙◌, Bool, true, false, not, ◌&&◌, Option, none, some,
  Bool-cases, str_eq,
}

-- In newborn care by its phase, or gone, and without care.
abbrev pub Lost : Status → Type 0
Lost h = ((h.phase ≡ newborn_care) ⊎ (h.phase ≡ departed)) × (h.care ≡ none)

uncared : (g : Status) → g.care ≡ none → in_care g ≡ false
unfolding in_care
uncared g e = rw e refl

score_if_newborn-uncared :
    (api : ScoreApi) (now : ℤ) (s : Spec) (b : Option Birth) (d : Deployment) (g : Status)
    (e : Bool) (k : Cluster)
    → g.care ≡ none
    → (score_if_newborn api now s b d (g, e) k).status ≡ g
unfolding score_if_newborn
score_if_newborn-uncared api now s none d g e k c = refl
score_if_newborn-uncared api now s (some b) d g e k c = rw (uncared g c) refl

care_if_newborn-uncared :
    (api : CareApi) (now : ℤ) (b : Option Birth) (care : Option Care) (d : Deployment) (p : Pass)
    → care ≡ none
    → care_if_newborn api now b care d p ≡ p
unfolding care_if_newborn
care_if_newborn-uncared api now none care d p e = refl
care_if_newborn-uncared api now (some b) none d p e = refl
care_if_newborn-uncared api now (some b) (some care) d p e = absurd (cc e)

-- Both steps of a newborn pass one without care by.
passed_by :
    (score : ScoreApi) (care : CareApi) (now : ℤ) (s : Spec) (g : Status) (d : Deployment)
    (e : Bool) (k : Cluster)
    → g.care ≡ none
    → (care_if_newborn care now
        (score_if_newborn score now s g.birth d (g, e) k).status.birth
        (score_if_newborn score now s g.birth d (g, e) k).status.care
        d
        (score_if_newborn score now s g.birth d (g, e) k)).status
      ≡ g
passed_by score care now s g d e k c =
    let same = score_if_newborn-uncared score now s g.birth d g e k c in
    ap (λ p. p.status)
      (care_if_newborn-uncared care now _ _ d (score_if_newborn score now s g.birth d (g, e) k)
        (ap (λ h. h.care) same ∙ c))
    ∙ same

Lost-of : (g h : Status) → g.phase ≡ newborn_care → g.care ≡ none → Resolved g h → Lost h
Lost-of g h e c (birth, phase, care) = (inl (phase ∙ e), care ∙ c)

tend_born-Lost :
    (score : ScoreApi) (care : CareApi) (now : ℤ) (s : Spec) (b : Birth) (g : Status)
    (d : Deployment) (k : Cluster)
    → g.birth ≡ some b
    → g.phase ≡ newborn_care
    → g.care ≡ none
    → Lost (tend_born score care now s b g d k).status
unfolding tend_born
tend_born-Lost score care now s b g d k f e c =
    let resolved = resolve_revisions-Resolved score b g d f in
    rw
      (passed_by score care now s (resolve_revisions score b g d).0 d
        (resolve_revisions score b g d).1 k (resolved.2 ∙ c))
      (Lost-of g (resolve_revisions score b g d).0 e c resolved)

departing-Lost :
    (api : CareApi) (g : Status) (k : Cluster) → Lost (departing api newborn_care g k).status
unfolding departing depart
departing-Lost api g k = (inr refl, refl)

after_birth-Lost :
    (score : ScoreApi) (care : CareApi) (now : ℤ) (s : Spec) (b : Birth) (g : Status)
    (d : Option Deployment) (k : Cluster)
    → g.birth ≡ some b
    → g.phase ≡ newborn_care
    → g.care ≡ none
    → Lost (after_birth score care now s b g d k).status
unfolding after_birth
after_birth-Lost score care now s b g none k f e c = rw e (departing-Lost care g k)
after_birth-Lost score care now s b g (some d) k f e c =
    elim (Bool-cases (not (str_eq d.uid b.uid))) [
      | inl other ↦ rw (other, e) (departing-Lost care g k)
      | inr own ↦ rw own (tend_born-Lost score care now s b g d k f e c)
    ]

and-false : (b : Bool) → (b && false) ≡ false
and-false true = refl
and-false false = refl

-- After a birth in newborn care, no delivery is begun, whatever is asked.
delivery_asked-born :
    (s : Spec) (g : Status) (b : Birth)
    → g.birth ≡ some b
    → g.phase ≡ newborn_care
    → delivery_asked s g ≡ false
unfolding delivery_asked
delivery_asked-born s g b f e = rw (f, e) (and-false (ltb_ℤ g.delivery s.delivery))

begin_delivery-born :
    (now : ℤ) (s : Spec) (g : Status) (b : Birth)
    → g.birth ≡ some b
    → g.phase ≡ newborn_care
    → begin_delivery now s g ≡ g
unfolding begin_delivery
begin_delivery-born now s g b f e = rw (delivery_asked-born s g b f e) refl

dispatch-Lost :
    (i : Inputs) (s : Spec) (b : Birth) (g : Status) (k : Cluster)
    → g.birth ≡ some b
    → g.phase ≡ newborn_care
    → g.care ≡ none
    → Lost (dispatch i s g.phase g k).status
unfolding dispatch unborn_or_born
dispatch-Lost i s b g k f e c =
    subst (λ p. Lost (dispatch i s p g k).status) (sym e)
      (subst (λ o. Lost (unborn_or_born i s o g k).status) (sym f)
        (after_birth-Lost i.score i.care i.now s b g k.deployment k f e c))

answered-Lost : (r : Option ℤ) (h : Status) → Lost h → Lost (answered r h)
answered-Lost none h l = l
answered-Lost (some r) h l = elim (Bool-cases (same_time r h.screened_request)) [
  | inl same ↦ rw same l
  | inr fresh ↦ rw fresh l
]

-- A born gestation in newborn care that has lost its care, as a rollback leaves it whose last step fails, stays
-- so in every pass, whatever is asked of it and whatever the API answers, until it departs: no caregiver
-- brings it home, it is not rolled back, and no new delivery begins.
pub reconcile-Lost :
    (i : Inputs) (s : Spec) (b : Birth) (g : Status) (k : Cluster)
    → g.birth ≡ some b
    → g.phase ≡ newborn_care
    → g.care ≡ none
    → Lost (reconcile i s g k).status
unfolding reconcile
reconcile-Lost i s b g k f e c = elim (Bool-cases i.deployment_read) [
  | inr unread ↦ simp unread (inl e, c)
  | inl read ↦
      simp (read, begin_delivery-born i.now s g b f e)
        (answered-Lost s.screen_requested _ (dispatch-Lost i s b g k f e c))
]
