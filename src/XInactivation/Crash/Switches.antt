-- ===== src/XInactivation/Crash/Switches.antt =====
-- A node does not flap: once it has switched, later crashes leave its choice alone.
use kyvernetria.XInactivation.Disk.{Disk, holds, Write, done, unsynced, refused}
use kyvernetria.XInactivation.Cell.{Cell, second, escape_blocked, stamp_text}
use kyvernetria.XInactivation.Crash.Choice.{
  switched, switched-same_choice, MaySwitch, record_crash-Alone, record_crash-switched_iff,
}
use kyvernetria.XInactivation.Crash.Safety.{Crash, crash, one_if, crash-cases, blocked-Kept}
use kyvernetria.XInactivation.Crash.Stamp.{
  IsBootId, escape_blocked-same_boot, escape_blocked-cooldown,
}
use kyvernetria.Prelude.{
  ℕ, ◌+◌, ◌-◌, ◌*◌, ◌/◌, ◌<◌, ◌≤◌, ◌≡◌, ◌≢◌, refl, ◌∙◌, ◌⊎◌, inl, inr, Bool, true, false, List, [],
  ◌∷◌, none, arith, All,
}

-- How many of the calls change the allele that the node reads, each on the disk that the one before leaves.
unfoldable pub switches_of : Cell → List Crash → Disk → ℕ
unfolding crash
switches_of c [] d = 0
switches_of c (k ∷ ks) d =
    one_if (switched d (crash c k d).disk) + switches_of c ks (crash c k d).disk

-- A blocked crash does not touch the choice, whatever the operating system does.
blocked-choice :
    (c : Cell) (k : Crash) (d : Disk)
    → escape_blocked c k.now d ≢ none
    → (crash c k d).disk.choice ≡ d.choice
unfolding crash
blocked-choice c k d h = elim (record_crash-Alone c k.os k.component k.allele k.now d) [
  | inl alone ↦ alone
  | inr may ↦ absurd (h may.free)
]

-- The last switch was stamped in this boot.
abbrev Stamped : Cell → Disk → Type 0
Stamped c d = (t : ℕ) × (d.last_escape ≡ holds (stamp_text c t))

Stamped-no_switches :
    (c : Cell) (ks : List Crash) (d : Disk)
    → IsBootId c.boot_id
    → Stamped c d
    → switches_of c ks d ≡ 0
unfolding switches_of
Stamped-no_switches c [] d b s = refl
Stamped-no_switches c (k ∷ ks) d b (t, s) =
    let blocked = escape_blocked-same_boot c c t k.now d s b refl in
    let kept = blocked-Kept c k d blocked in
    rw (switched-same_choice d (crash c k d).disk (blocked-choice c k d blocked))
      (omega (arith, Stamped-no_switches c ks (crash c k d).disk b (t, kept.same_stamp ∙ s)))

written_in_full : (w : Write) → w ≢ unsynced → w ≢ refused → w ≡ done
written_in_full done u r = refl
written_in_full unsynced u r = absurd (u refl)
written_in_full refused u r = absurd (r refl)

crash-told :
    (c : Cell) (k : Crash) (d : Disk)
    → k.os.choice ≢ unsynced
    → MaySwitch c k.os k.component k.allele k.now d
    → (crash c k d).decision.escaped ≡ true
unfolding crash
crash-told c k d synced may =
    (record_crash-switched_iff c k.os k.component k.allele k.now d).1.1
      (may, written_in_full k.os.choice synced may.renamed)

crash-choice :
    (c : Cell) (k : Crash) (d : Disk)
    → ((crash c k d).disk.choice ≡ d.choice) ⊎ MaySwitch c k.os k.component k.allele k.now d
unfolding crash
crash-choice c k d = record_crash-Alone c k.os k.component k.allele k.now d

-- Within one boot whose id is a word, whatever crashes are recorded, with whatever clock readings and whatever
-- else fails, the allele that the node reads changes at most once, if each stamp can be written and no
-- directory sync fails after the new choice is in place.
pub switches_of-le-one :
    (c : Cell) (ks : List Crash) (d : Disk)
    → IsBootId c.boot_id
    → All (λ k. (k.os.stamp ≡ done) × (k.os.choice ≢ unsynced)) ks
    → switches_of c ks d ≤ 1
unfolding switches_of
switches_of-le-one c [] d b h = omega arith
switches_of-le-one c (k ∷ ks) d b h = elim (crash-choice c k d) [
  | inl alone ↦
      rw (switched-same_choice d (crash c k d).disk alone)
        (omega (arith, switches_of-le-one c ks (crash c k d).disk b h.1))
  | inr may ↦ elim (crash-cases c k d) [
    | inl (_, s) ↦ omega (
      arith,
      one_if-le (switched d (crash c k d).disk),
      Stamped-no_switches c ks (crash c k d).disk b (k.now, s.stamped h.0.0),
    )
    | inr kept ↦ absurd (cc (kept.not_escaped, crash-told c k d h.0.1 may))
  ]
]
  where
    one_if-le : (b : Bool) → one_if b ≤ 1
    one_if-le true = omega arith
    one_if-le false = omega arith

-- After an escape whose stamp was written, no crash that is recorded before the cooldown is over touches the
-- choice or the stamp on the disk, or tells of an escape, whatever fails and also after a reboot, as long as
-- nothing else writes the stamp, the clock does not run back behind the escape, its seconds are an int64, and
-- the boot id is unknown or a word.
pub switch_cools_down :
    (c r : Cell) (first later : Crash) (d e : Disk)
    → (crash c first d).decision.escaped ≡ true
    → first.os.stamp ≡ done
    → e.last_escape ≡ (crash c first d).disk.last_escape
    → (c.boot_id ≡ []) ⊎ IsBootId c.boot_id
    → first.now ≤ later.now
    → later.now - first.now / second * second < r.cooldown
    → first.now / second < 9223372036854775808
    → ((crash r later e).disk.choice ≡ e.choice)
      × ((crash r later e).disk.last_escape ≡ e.last_escape)
      × ((crash r later e).decision.escaped ≡ false)
switch_cools_down c r first later d e esc ok same boot order soon small =
    elim (crash-cases c first d) [
      | inr kept ↦ absurd (cc (kept.not_escaped))
      | inl (_, s) ↦
          let blocked =
            escape_blocked-cooldown c r first.now later.now e (same ∙ s.stamped ok) boot order soon
              small in
          let kept = blocked-Kept r later e blocked in
          (blocked-choice r later e blocked, kept.same_stamp, kept.not_escaped)
    ]
