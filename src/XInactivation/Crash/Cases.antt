-- ===== src/XInactivation/Crash/Cases.antt =====
-- The branches of RecordCrash: when it escapes, and what it leaves on the disk.
use kyvernetria.XInactivation.Disk.{
  Allele, allele_eq, allele_eq_sound, allele_eq_refl, other, allele_text, holds, Disk, Reading,
  found, failed, read, Write, done, unsynced, refused, write_atomic,
}
use kyvernetria.XInactivation.Cell.{Cell, Block, escape_blocked, Os, Outcome, stamp_text}
use kyvernetria.XInactivation.Crash.{
  crash_times, record_crash, locked, judge, escape_unless, escape, stay,
}
use kyvernetria.Prelude.Int.{ℤ}
use kyvernetria.Prelude.{
  ℕ, ◌≤◌, ◌≡◌, refl, ◌↔◌, ◌⊎◌, ◌≢◌, inl, inr, true, false, List, [], ◌∷◌, ◌++◌, String, Option,
  none, some, arith, length, ltb, ap, Bool-cases,
}

-- Everything that an escape needs.
pub record CanEscape (c : Cell) (os : Os) (component : String) (allele : Allele) (now : ℕ)
    (d : Disk) : Type 0 where
  pub dir : os.mkdir ≡ true
  pub held : os.lock ≡ true
  pub enough : c.escape_crashes ≤ length (crash_times c component now d)
  pub current : read d ≡ found allele
  pub free : escape_blocked c now d ≡ none
  pub written : os.choice ≡ done

module _ (c : Cell) (os : Os) (component : String) (allele : Allele) (now : ℕ) where
  -- The disk that an outcome leaves, against the disk before it.
  pub record Kept (d : Disk) (o : Outcome) : Type 0 where
    pub not_escaped : o.decision.escaped ≡ false
    pub same_choice : (o.disk.choice ≡ d.choice) ⊎ (os.choice ≡ unsynced)
    pub same_stamp : o.disk.last_escape ≡ d.last_escape
    pub same_log : o.disk.escapes ≡ d.escapes
    pub same_flag : o.disk.upgrading ≡ d.upgrading

  -- The disk and the decision of an escape.
  pub record Switched (o : Outcome) : Type 0 where
    pub escaped : o.decision.escaped ≡ true
    pub decided : o.decision.to ≡ other allele
    pub published : o.disk.choice ≡ holds (allele_text (other allele) ++ 10 ∷ [])
    pub stamped : os.stamp ≡ done → o.disk.last_escape ≡ holds (stamp_text c now)

  Split : Disk → Outcome → Type 0 → Type 0
  Split d o P = (P × Switched o) ⊎ Kept d o

  escape-Switched :
      (n : ℕ) (d : Disk) → os.choice ≡ done → Switched (escape c os component allele now n d)
  unfolding escape write_atomic
  escape-Switched n d h = ground arith

  escape-Kept :
      (n : ℕ) (d : Disk) → os.choice ≢ done → Kept d (escape c os component allele now n d)
  unfolding escape write_atomic
  escape-Kept n d h = ground arith

  Write-cases : (w : Write) → (w ≡ done) ⊎ (w ≢ done)
  Write-cases done = inl refl
  Write-cases refused = inr (λ e. cc)
  Write-cases unsynced = inr (λ e. cc)

  escape_unless-cases :
      (b : Option Block) (times : List ℤ) (d : Disk)
      → Split d
          (escape_unless b c os component allele now times d)
          ((b ≡ none) × (os.choice ≡ done))
  unfolding escape_unless Split stay
  escape_unless-cases none times d = elim (Write-cases os.choice) [
    | inl w ↦ inl ((refl, w), escape-Switched (length times) d w)
    | inr w ↦ inr (escape-Kept (length times) d w)
  ]
  escape_unless-cases (some b) times d = inr (ground arith)

  judge-cases :
      (r : Reading) (times : List ℤ) (d : Disk)
      → Split d
          (judge r c os component allele now times d)
          ((r ≡ found allele) × (escape_blocked c now d ≡ none) × (os.choice ≡ done))
  unfolding judge Split stay
  judge-cases (failed e) times d = inr (ground arith)
  judge-cases (found current) times d = elim (Bool-cases (allele_eq current allele)) [
    | inl same ↦ rw same (elim (escape_unless-cases (escape_blocked c now d) times d) [
      | inl (p, s) ↦ inl ((ap found (allele_eq_sound current allele same), p.0, p.1), s)
      | inr k ↦ inr k
    ])
    | inr differs ↦ rw differs (inr (ground arith))
  ]

  locked-cases :
      (times : List ℤ) (d : Disk)
      → Split d (locked c os component allele now times d) (
          (c.escape_crashes ≤ length times)
          × (read d ≡ found allele)
          × (escape_blocked c now d ≡ none)
          × (os.choice ≡ done))
  unfolding locked Split stay
  locked-cases times d = elim (Bool-cases (ltb (length times) c.escape_crashes)) [
    | inl few ↦ rw few (inr (ground arith))
    | inr enough ↦ rw enough (elim (judge-cases (read d) times d) [
      | inl (p, s) ↦ inl ((ground arith, p.0, p.1, p.2), s)
      | inr k ↦ inr k
    ])
  ]

  -- RecordCrash escapes with all that an escape needs, or tells of no escape and leaves the choice alone, but
  -- for one that is in place and could not be synced.
  pub record_crash-cases :
      (d : Disk)
      → (CanEscape c os component allele now d
          × Switched (record_crash c os component allele now d))
        ⊎ Kept d (record_crash c os component allele now d)
  unfolding record_crash Split
  record_crash-cases d = elim (Bool-cases os.mkdir) [
    | inr no_dir ↦ simp no_dir (inr (ground arith))
    | inl dir ↦ elim (Bool-cases os.lock) [
      | inr free ↦ simp (dir, free) (inr (ground arith))
      | inl held ↦
          simp (dir, held)
            (elim (locked-cases (crash_times c component now d) d) [
              | inl (p, s) ↦ inl (
                record {
                  dir = dir;
                  held = held;
                  enough = p.0;
                  current = p.1;
                  free = p.2;
                  written = p.3;
                },
                s,
              )
              | inr k ↦ inr k
            ])
    ]
  ]

  CanEscape-escaped :
      (d : Disk)
      → CanEscape c os component allele now d
      → (record_crash c os component allele now d).decision.escaped ≡ true
  unfolding record_crash locked judge escape_unless
  CanEscape-escaped d h =
      rw (h.dir, h.held, ltb-le _ _ h.enough, h.current, allele_eq_refl allele, h.free)
        (escape-Switched (length (crash_times c component now d)) d h.written).escaped
    where
      ltb-le : (a b : ℕ) → b ≤ a → ltb a b ≡ false
      ltb-le a b p = ground arith

  -- RecordCrash tells of an escape exactly when the directory can be used and locked, there are
  -- EscapeCrashes crashes within the window, the node still expresses the allele that crashed, no
  -- escape is blocked, and the new choice is written and synced.
  pub record_crash-escaped_iff :
      (d : Disk)
      → ((record_crash c os component allele now d).decision.escaped ≡ true)
        ↔ CanEscape c os component allele now d
  record_crash-escaped_iff d = (
    λ e. elim (record_crash-cases d) [ inl (can, _) ↦ can | inr k ↦ absurd (cc (k.not_escaped)) ],
    CanEscape-escaped d,
  )
