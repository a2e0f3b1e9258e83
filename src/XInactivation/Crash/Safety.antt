-- ===== src/XInactivation/Crash/Safety.antt =====
-- Runs of crashes, the escapes that RecordCrash tells of in them, and what one of those leaves.
use kyvernetria.XInactivation.Disk.{Allele, other, Disk, found, read, read_file-allele_text}
use kyvernetria.XInactivation.Cell.{Cell, escape_blocked, Os, Outcome}
use kyvernetria.XInactivation.Crash.{record_crash}
use kyvernetria.XInactivation.Crash.Cases.{CanEscape, Switched, Kept, record_crash-cases}
use kyvernetria.Prelude.{
  ℕ, ◌+◌, ◌≡◌, ◌≢◌, ◌⊎◌, inl, inr, Bool, true, false, List, [], ◌∷◌, String, none,
}

-- One call of RecordCrash.
pub record Crash : Type 0 where
  pub os : Os
  pub component : String
  pub allele : Allele
  pub now : ℕ

unfoldable pub crash : Cell → Crash → Disk → Outcome
crash c k d = record_crash c k.os k.component k.allele k.now d

-- The calls of one boot, one after another under the lock, and how many of them escaped.
unfoldable pub run : Cell → List Crash → Disk → Disk
unfolding crash
run c [] d = d
run c (k ∷ ks) d = run c ks (crash c k d).disk

abbrev pub one_if : Bool → ℕ
one_if true = 1
one_if false = 0

unfoldable pub escapes_of : Cell → List Crash → Disk → ℕ
unfolding crash
escapes_of c [] d = 0
escapes_of c (k ∷ ks) d = one_if (crash c k d).decision.escaped + escapes_of c ks (crash c k d).disk

pub crash-cases :
    (c : Cell) (k : Crash) (d : Disk)
    → (CanEscape c k.os k.component k.allele k.now d
        × Switched c k.os k.component k.allele k.now (crash c k d))
      ⊎ Kept c k.os k.component k.allele k.now d (crash c k d)
unfolding crash
crash-cases c k d = record_crash-cases c k.os k.component k.allele k.now d

pub blocked-Kept :
    (c : Cell) (k : Crash) (d : Disk)
    → escape_blocked c k.now d ≢ none
    → Kept c k.os k.component k.allele k.now d (crash c k d)
blocked-Kept c k d h = elim (crash-cases c k d) [
  | inl (can, _) ↦ absurd (h can.free)
  | inr kept ↦ kept
]

-- An escape finds the node expressing the allele that crashed, and leaves the other one as what the node
-- reads and as what the decision names.
pub read-escape :
    (c : Cell) (k : Crash) (d : Disk)
    → (crash c k d).decision.escaped ≡ true
    → (read d ≡ found k.allele)
      × (read (crash c k d).disk ≡ found (other k.allele))
      × ((crash c k d).decision.to ≡ other k.allele)
unfolding read
read-escape c k d esc = elim (crash-cases c k d) [
  | inr kept ↦ absurd (cc (kept.not_escaped))
  | inl (can, s) ↦
      (can.current, rw (s.published) (read_file-allele_text (other k.allele)), s.decided)
]
