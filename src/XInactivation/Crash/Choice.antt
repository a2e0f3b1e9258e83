-- ===== src/XInactivation/Crash/Choice.antt =====
-- The allele that a node reads from its disk, over a run of crashes: the switch itself, whatever the decision
-- that RecordCrash returns says of it.
use kyvernetria.XInactivation.Disk.{
  Allele, allele_eq, allele_eq_sound, allele_eq_refl, other, other-ne, allele_text, holds, Disk,
  Reading, found, failed, read, Write, done, unsynced, refused, read_file-allele_text,
}
use kyvernetria.XInactivation.Cell.{Cell, Block, escape_blocked, Os, Outcome}
use kyvernetria.XInactivation.Crash.{
  crash_times, record_crash, locked, judge, escape_unless, escape, stay, settle,
}
use kyvernetria.XInactivation.Crash.Cases.{record_crash-escaped_iff}
use kyvernetria.Prelude.Int.{ℤ}
use kyvernetria.Prelude.{
  ℕ, ◌≤◌, ◌≡◌, refl, ◌↔◌, ◌⊎◌, ◌≢◌, inl, inr, Bool, true, false, not, List, [], ◌∷◌, ◌++◌, String,
  Option, none, some, arith, length, ltb, ap, Bool-cases,
}

-- A node that reads `r` comes to read another allele.
abbrev pub turns : Reading → Reading → Bool
turns r (failed e) = false
turns (failed e) (found b) = true
turns (found a) (found b) = not (allele_eq b a)

-- The disks before and after, as the node reads them.
abbrev pub switched : Disk → Disk → Bool
switched d e = turns (read d) (read e)

-- What has to hold before the other allele is put in place.
pub record MaySwitch (c : Cell) (os : Os) (component : String) (allele : Allele) (now : ℕ)
    (d : Disk) : Type 0 where
  pub dir : os.mkdir ≡ true
  pub held : os.lock ≡ true
  pub enough : c.escape_crashes ≤ length (crash_times c component now d)
  pub current : read d ≡ found allele
  pub free : escape_blocked c now d ≡ none
  pub renamed : os.choice ≢ refused

turns-same : (r : Reading) → turns r r ≡ false
turns-same (failed e) = refl
turns-same (found a) = rw (allele_eq_refl a) refl

pub switched-same_choice : (d e : Disk) → e.choice ≡ d.choice → switched d e ≡ false
unfolding read
switched-same_choice d e h = rw h (turns-same (read d))

module _ (c : Cell) (os : Os) (component : String) (allele : Allele) (now : ℕ) where
  -- The choice is left as it is, or `P` holds.
  abbrev Alone : Disk → Outcome → Type 0 → Type 0
  Alone d o P = (o.disk.choice ≡ d.choice) ⊎ P

  Write-refused : (w : Write) → (w ≡ refused) ⊎ (w ≢ refused)
  Write-refused done = inr (λ e. cc)
  Write-refused unsynced = inr (λ e. cc)
  Write-refused refused = inl refl

  escape-refused :
      (n : ℕ) (d : Disk)
      → os.choice ≡ refused
      → (escape c os component allele now n d).disk.choice ≡ d.choice
  unfolding escape
  escape-refused n d h = ground (arith, h)

  escape-renamed :
      (n : ℕ) (d : Disk)
      → os.choice ≢ refused
      → (escape c os component allele now n d).disk.choice
        ≡ holds (allele_text (other allele) ++ 10 ∷ [])
  unfolding escape settle
  escape-renamed n d h = ground (arith, h)

  escape_unless-Alone :
      (b : Option Block) (times : List ℤ) (d : Disk)
      → Alone d
          (escape_unless b c os component allele now times d)
          ((b ≡ none) × (os.choice ≢ refused))
  unfolding escape_unless stay
  escape_unless-Alone none times d = elim (Write-refused os.choice) [
    | inl w ↦ inl (escape-refused (length times) d w)
    | inr w ↦ inr (refl, w)
  ]
  escape_unless-Alone (some b) times d = inl refl

  judge-Alone :
      (r : Reading) (times : List ℤ) (d : Disk)
      → Alone d
          (judge r c os component allele now times d)
          ((r ≡ found allele) × (escape_blocked c now d ≡ none) × (os.choice ≢ refused))
  unfolding judge stay
  judge-Alone (failed e) times d = inl refl
  judge-Alone (found current) times d = elim (Bool-cases (allele_eq current allele)) [
    | inl same ↦ rw same (elim (escape_unless-Alone (escape_blocked c now d) times d) [
      | inl alone ↦ inl alone
      | inr p ↦ inr (ap found (allele_eq_sound current allele same), p.0, p.1)
    ])
    | inr differs ↦ rw differs (inl refl)
  ]

  locked-Alone :
      (times : List ℤ) (d : Disk)
      → Alone d (locked c os component allele now times d) (
          (c.escape_crashes ≤ length times)
          × (read d ≡ found allele)
          × (escape_blocked c now d ≡ none)
          × (os.choice ≢ refused))
  unfolding locked stay
  locked-Alone times d = elim (Bool-cases (ltb (length times) c.escape_crashes)) [
    | inl few ↦ rw few (inl refl)
    | inr enough ↦ rw enough (elim (judge-Alone (read d) times d) [
      | inl alone ↦ inl alone
      | inr p ↦ inr (ground arith, p.0, p.1, p.2)
    ])
  ]

  pub record_crash-Alone :
      (d : Disk)
      → Alone d (record_crash c os component allele now d) (MaySwitch c os component allele now d)
  unfolding record_crash
  record_crash-Alone d = elim (Bool-cases os.mkdir) [
    | inr no_dir ↦ simp no_dir (inl refl)
    | inl dir ↦ elim (Bool-cases os.lock) [
      | inr free ↦ simp (dir, free) (inl refl)
      | inl held ↦
          simp (dir, held)
            (elim (locked-Alone (crash_times c component now d) d) [
              | inl alone ↦ inl alone
              | inr p ↦ inr (record {
                dir = dir;
                held = held;
                enough = p.0;
                current = p.1;
                free = p.2;
                renamed = p.3;
              })
            ])
    ]
  ]

  record_crash-chosen :
      (d : Disk)
      → MaySwitch c os component allele now d
      → (record_crash c os component allele now d).disk.choice
        ≡ holds (allele_text (other allele) ++ 10 ∷ [])
  unfolding record_crash locked judge escape_unless
  record_crash-chosen d h =
      rw (h.dir, h.held, ltb-le _ _ h.enough, h.current, allele_eq_refl allele, h.free)
        (escape-renamed (length (crash_times c component now d)) d h.renamed)
    where
      ltb-le : (a b : ℕ) → b ≤ a → ltb a b ≡ false
      ltb-le a b p = ground arith

  turns-other : turns (found allele) (found (other allele)) ≡ true
  turns-other = rw (other-ne allele) refl

  record_crash-switched :
      (d : Disk)
      → MaySwitch c os component allele now d
      → switched d (record_crash c os component allele now d).disk ≡ true
  unfolding read
  record_crash-switched d may =
      rw (may.current, record_crash-chosen d may, read_file-allele_text (other allele)) turns-other

  -- A crash makes the node read the other allele from then on exactly when the directory can be used and
  -- locked, there are EscapeCrashes crashes within the window, the node still expresses the allele that crashed,
  -- no escape is blocked, and the new choice is renamed into place. RecordCrash tells of the switch exactly when
  -- the directory is synced after that, too.
  pub record_crash-switched_iff :
      (d : Disk)
      → ((switched d (record_crash c os component allele now d).disk ≡ true)
          ↔ MaySwitch c os component allele now d)
        × (((record_crash c os component allele now d).decision.escaped ≡ true)
            ↔ (MaySwitch c os component allele now d × (os.choice ≡ done)))
  record_crash-switched_iff d = (
    (
      λ s. elim (record_crash-Alone d) [
        | inr may ↦ may
        | inl alone ↦
            absurd
              (cc (s, switched-same_choice d (record_crash c os component allele now d).disk alone))
      ],
      record_crash-switched d,
    ),
    (
      λ e.
          (let can = (record_crash-escaped_iff c os component allele now d).0 e in
            (
              record {
                dir = can.dir;
                held = can.held;
                enough = can.enough;
                current = can.current;
                free = can.free;
                renamed = λ r. cc (r, can.written);
              },
              can.written,
            )),
      λ h. (record_crash-escaped_iff c os component allele now d).1 (record {
        dir = h.0.dir;
        held = h.0.held;
        enough = h.0.enough;
        current = h.0.current;
        free = h.0.free;
        written = h.1;
      }),
    ),
  )
