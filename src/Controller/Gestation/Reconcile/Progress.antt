-- ===== src/Controller/Gestation/Reconcile/Progress.antt =====
-- reconcile as a state machine: what each phase says of birth and care, and which way phases go.
use kyvernetria.Controller.Gestation.Reconcile.Valid.{ValidAt, Valid, rank, Keeps, Keeps-of}
use kyvernetria.Controller.Gestation.Reconcile.Afterwards.{after_birth-Keeps}
use kyvernetria.Controller.Gestation.Reconcile.{
  Inputs, delivery_asked, begin_delivery, unborn_or_born, dispatch, answered, reconcile, same_time,
}
use kyvernetria.Controller.Gestation.Reconcile.Births.{
  Delivers, Expects, deliver-Delivers, pregnancy-Expects,
}
use kyvernetria.Controller.Gestation.State.{
  Phase, unset, expecting, due, delivering, newborn_care, needs_caregivers, grown, rolled_back,
  departed, Spec, Birth, Care, Status, Cluster,
}
use kyvernetria.Controller.Gestation.Birth.{deliver}
use kyvernetria.Controller.Gestation.Reserve.{pregnancy}
use kyvernetria.Prelude.Int.{ℤ}
use kyvernetria.Prelude.{
  ℕ, ◌≤◌, ◌≢◌, ◌≡◌, inl, inr, refl, sym, subst, ◌∙◌, false, Option, none, some, arith, Bool-cases,
}

-- Without a birth, and not delivering, nothing has begun.
unborn : (p : Phase) (c : Option Care) → ValidAt p none c → rank p ≢ 1 → (c ≡ none) × (rank p ≡ 0)
unborn unset c (e, f) h = (f, refl)
unborn expecting c (e, f) h = (f, refl)
unborn due c (e, f) h = (f, refl)
unborn delivering c (e, f) h = absurd (h refl)
unborn newborn_care c (b, e) h = cc
unborn needs_caregivers c (b, e) h = cc
unborn grown c ((b, e), f) h = cc
unborn rolled_back c ((b, e), f) h = cc
unborn departed c ((b, e), f) h = cc

Expects-Keeps : (g h : Status) → g.birth ≡ none → g.care ≡ none → Expects g h → Keeps 0 h
Expects-Keeps g h b c (inl e, eb, ec, ea) =
    Keeps-of 0 h expecting none none (refl, refl) (omega arith) e (eb ∙ b) (ec ∙ c)
Expects-Keeps g h b c (inr e, eb, ec, ea) =
    Keeps-of 0 h due none none (refl, refl) (omega arith) e (eb ∙ b) (ec ∙ c)

unborn_or_born-Keeps :
    (i : Inputs) (s : Spec) (b : Option Birth) (g : Status) (k : Cluster)
    → g.birth ≡ b
    → ValidAt g.phase b g.care
    → rank g.phase ≢ 1
    → Keeps (rank g.phase) (unborn_or_born i s b g k).status
unfolding unborn_or_born
unborn_or_born-Keeps i s none g k f v h =
    let facts = unborn g.phase g.care v h in
    subst (λ n. Keeps n (pregnancy i.reserve i.uid i.now s g k).status) (sym facts.1)
      (Expects-Keeps g (pregnancy i.reserve i.uid i.now s g k).status f facts.0
        (pregnancy-Expects i.reserve i.uid i.now s g k))
unborn_or_born-Keeps i s (some b) g k f v h =
    after_birth-Keeps i.score i.care i.now s b g k.deployment k (rank g.phase) f v (omega arith)

Delivers-Keeps :
    (g h : Status)
    → g.phase ≡ delivering
    → ValidAt delivering g.birth g.care
    → Delivers g h
    → Keeps 1 h
Delivers-Keeps g h e (b, c) (inl same) =
    Keeps-of 1 h delivering none none (refl, refl) (omega arith) (same.phase ∙ e) (same.birth ∙ b)
      (same.care ∙ c)
Delivers-Keeps g h e v (inr born) =
    Keeps-of 1 h newborn_care (some born.birth.0) (some born.care.0) (born.birth.0, refl)
      (omega arith) born.phase born.birth.1 born.care.1

otherwise-Keeps :
    (i : Inputs) (s : Spec) (p : Phase) (g : Status) (k : Cluster)
    → g.phase ≡ p
    → Valid g
    → rank p ≢ 1
    → Keeps (rank p) (unborn_or_born i s g.birth g k).status
otherwise-Keeps i s p g k e v h =
    subst (λ p. Keeps (rank p) (unborn_or_born i s g.birth g k).status) e
      (unborn_or_born-Keeps i s g.birth g k refl v (λ one. h (subst (λ p. rank p ≡ 1) e one)))

dispatch-Keeps :
    (i : Inputs) (s : Spec) (p : Phase) (g : Status) (k : Cluster)
    → g.phase ≡ p
    → Valid g
    → Keeps (rank p) (dispatch i s p g k).status
unfolding dispatch
dispatch-Keeps i s delivering g k e v =
    Delivers-Keeps g (deliver i.deliver i.now i.uid s g k).status e
      (subst (λ p. ValidAt p g.birth g.care) e v) (deliver-Delivers i.deliver i.now i.uid s g k)
dispatch-Keeps i s unset g k e v = otherwise-Keeps i s unset g k e v (λ h. omega (arith, h))
dispatch-Keeps i s expecting g k e v = otherwise-Keeps i s expecting g k e v (λ h. omega (arith, h))
dispatch-Keeps i s due g k e v = otherwise-Keeps i s due g k e v (λ h. omega (arith, h))
dispatch-Keeps i s newborn_care g k e v =
    otherwise-Keeps i s newborn_care g k e v (λ h. omega (arith, h))
dispatch-Keeps i s needs_caregivers g k e v =
    otherwise-Keeps i s needs_caregivers g k e v (λ h. omega (arith, h))
dispatch-Keeps i s grown g k e v = otherwise-Keeps i s grown g k e v (λ h. omega (arith, h))
dispatch-Keeps i s rolled_back g k e v =
    otherwise-Keeps i s rolled_back g k e v (λ h. omega (arith, h))
dispatch-Keeps i s departed g k e v = otherwise-Keeps i s departed g k e v (λ h. omega (arith, h))

answered-Keeps : (n : ℕ) (r : Option ℤ) (h : Status) → Keeps n h → Keeps n (answered r h)
answered-Keeps n none h k = k
answered-Keeps n (some r) h k = elim (Bool-cases (same_time r h.screened_request)) [
  | inl same ↦ rw same k
  | inr fresh ↦ rw fresh k
]

begin_delivery-Valid : (now : ℤ) (s : Spec) (g : Status) → Valid g → Valid (begin_delivery now s g)
unfolding begin_delivery
begin_delivery-Valid now s g v = elim (Bool-cases (delivery_asked s g)) [
  | inl asked ↦ rw asked (refl, refl)
  | inr still ↦ rw still v
]

begun-Keeps :
    (i : Inputs) (s : Spec) (g : Status) (k : Cluster)
    → Valid g
    → Keeps (rank g.phase) (dispatch i s g.phase g k).status
begun-Keeps i s g k v = dispatch-Keeps i s g.phase g k refl v

-- A pass over a valid gestation leaves a valid one, whatever the API answers: no birth and no care
-- before the delivery is done, a birth from then on, care at home, none after a rollback or a departure.
pub reconcile-Valid :
    (i : Inputs) (s : Spec) (g : Status) (k : Cluster) → Valid g → Valid (reconcile i s g k).status
unfolding reconcile
reconcile-Valid i s g k v = elim (Bool-cases i.deployment_read) [
  | inr unread ↦ simp unread v
  | inl read ↦
      simp read
        (answered-Keeps (rank (begin_delivery i.now s g).phase) s.screen_requested _
          (begun-Keeps i s (begin_delivery i.now s g) k (begin_delivery-Valid i.now s g v))).0
]

-- A pass that is not asked for a new delivery never takes a valid gestation back: not from newborn
-- care to a pregnancy, nor from grown or rolled back to newborn care, nor out of departed.
pub reconcile-rank_mono :
    (i : Inputs) (s : Spec) (g : Status) (k : Cluster)
    → Valid g
    → delivery_asked s g ≡ false
    → rank g.phase ≤ rank (reconcile i s g k).status.phase
unfolding reconcile begin_delivery
reconcile-rank_mono i s g k v still = elim (Bool-cases i.deployment_read) [
  | inr unread ↦ simp unread (omega arith)
  | inl read ↦
      simp (read, still)
        (answered-Keeps (rank g.phase) s.screen_requested _ (begun-Keeps i s g k v)).1
]
