-- ===== src/Placement/Settled.antt =====
-- An undisturbed sync writes what the pods say, after which a sync or a pod's event has nothing to do.
use kyvernetria.Text.{Text, text_eq, text_eq_iff}
use kyvernetria.Placement.{Holder, Running, recall, stateful_set, decode, nodes_of, max_remembered}
use kyvernetria.Placement.Recalled.{IsNodeName, recall_nodes_again}
use kyvernetria.Placement.Sync.{
  patch, Live, Server, Answer, Around, End, unchanged, saved, attempts, answered,
}
use kyvernetria.Placement.Atomic.{patch-same, write-sent}
use kyvernetria.Prelude.{
  ℕ, suc, ◌+◌, ◌≡◌, refl, sym, ap, ◌∙◌, inl, inr, false, some, ==_iff, Bool-cases, All, ltb, length,
}

-- With the same pods a second recall changes nothing.
recall_again :
    (kind previous : Text) (pods : Running)
    → text_eq kind stateful_set ≡ false
    → All IsNodeName (decode previous)
    → All IsNodeName (nodes_of pods)
    → recall kind (recall kind previous pods) pods ≡ recall kind previous pods
unfolding recall
recall_again kind previous pods hk hp hn = elim (Bool-cases (ltb max_remembered (length pods))) [
  | inl spread ↦ rw spread refl
  | inr few ↦ rw (few, hk) (recall_nodes_again (decode previous) pods hp hn)
]

-- Nobody writes before the patch, and it arrives.
abbrev pub Quiet : Around → Type 0
Quiet a = (a.patch_fails ≡ false) × ((s : Server) → a.before_patch s ≡ s)

attempts-new :
    (recalled : Text → Text) (n : ℕ) (around : ℕ → Around) (o : Live)
    → Quiet (around n)
    → text_eq (recalled o.annotation) o.annotation ≡ false
    → attempts recalled (suc n) around o (some o)
      ≡ (some (record { version = o.version + 1; annotation = recalled o.annotation }), saved)
unfolding attempts
attempts-new recalled n around o q other =
    let want = recalled o.annotation in
    rw (other, attempts)
      (ap (λ (x : Server × Answer). answered recalled (around n) (attempts recalled n around) x)
        (write-sent (around n) o.version want (some o) q.0
          ∙ ap (λ (s : Server). patch o.version want s) (q.1 (some o))
          ∙ patch-same o.version want o ((==_iff o.version o.version).1 refl)))

attempts-done :
    (recalled : Text → Text) (n : ℕ) (around : ℕ → Around) (o : Live) (s : Server)
    → recalled o.annotation ≡ o.annotation
    → attempts recalled (suc n) around o s ≡ (s, unchanged)
unfolding attempts
attempts-done recalled n around o s h =
    rw ((text_eq_iff (recalled o.annotation) o.annotation).1 h, attempts) refl

-- An undisturbed sync leaves what is recalled, whether it has to write or not.
attempts-Quiet :
    (recalled : Text → Text) (n : ℕ) (around : ℕ → Around) (o : Live)
    → Quiet (around n)
    → (p : Live) × ((attempts recalled (suc n) around o (some o)).0 ≡ some p)
      × (p.annotation ≡ recalled o.annotation)
attempts-Quiet recalled n around o q =
    elim (Bool-cases (text_eq (recalled o.annotation) o.annotation)) [
      | inl same ↦
          let e = (text_eq_iff (recalled o.annotation) o.annotation).0 same in
          (o, ap (λ (r : Server × End). r.0) (attempts-done recalled n around o (some o) e), sym e)
      | inr other ↦ (
        record { version = o.version + 1; annotation = recalled o.annotation },
        ap (λ (r : Server × End). r.0) (attempts-new recalled n around o q other),
        refl,
      )
    ]

-- The loop of sync with the pods of one holder.
abbrev pub recalling : Holder → Running → Text → Text
recalling h pods previous = recall h.kind previous pods

-- An undisturbed sync of a Deployment or a ReplicaSet stores what its pods say, and the sync after it
-- finds nothing to write, whatever others do meanwhile.
pub attempts-settled :
    (h : Holder) (pods : Running) (n m : ℕ) (around later : ℕ → Around) (o : Live)
    → text_eq h.kind stateful_set ≡ false
    → All IsNodeName (decode o.annotation)
    → All IsNodeName (nodes_of pods)
    → Quiet (around n)
    → (p : Live) × ((attempts (recalling h pods) (suc n) around o (some o)).0 ≡ some p)
      × (p.annotation ≡ recall h.kind o.annotation pods)
      × (attempts (recalling h pods) (suc m) later p (some p) ≡ (some p, unchanged))
attempts-settled h pods n m around later o hk hp hn q =
    let (p, stored, e) = attempts-Quiet (recalling h pods) n around o q in
    (
      p,
      stored,
      e,
      attempts-done (recalling h pods) m later p (some p)
          (ap (recalling h pods) e ∙ recall_again h.kind o.annotation pods hk hp hn ∙ sym e),
    )
