-- ===== src/XInactivation/Disk.antt =====
-- x-inactivation/cell.go: the alleles, the state directory, and its reads and writes.
use kyvernetria.Prelude.Int.{ℤ}
use kyvernetria.Text.{Text, codes, text_eq}
use kyvernetria.Text.Fields.{trim_space}
use kyvernetria.Text.Decimal.{format_int}
use kyvernetria.Prelude.{
  ℕ, ◌≡◌, refl, Bool, true, false, List, [], ◌∷◌, ◌++◌, String, arith, if◌then◌else◌,
}

pub data Allele : Type 0 where
  xm xp : Allele

pub Allele-discrete : Discrete Allele
Allele-discrete = hlevel

-- `a == b` on alleles.
abbrev pub allele_eq : Allele → Allele → Bool
allele_eq xm xm = true
allele_eq xp xp = true
allele_eq _ _ = false

unfoldable pub other : Allele → Allele
other xm = xp
other xp = xm

-- The constants Xm and Xp.
unfoldable pub allele_text : Allele → Text
allele_text xm = codes "Xm"
allele_text xp = codes "Xp"

-- What a path of the state directory holds: nothing, something that cannot be read, or a text.
pub data File : Type 0 where
  absent : File
  unreadable : File
  holds : Text → File

-- The line that an escape appends to the log.
pub record EscapeLine : Type 0 where
  pub at : ℕ
  pub component : String
  pub from : Allele
  pub to : Allele

-- The state directory: x-inactivation, last-escape, upgrading, <component>.crashes and
-- <component>.starts, escapes.
pub record Disk : Type 0 where
  pub choice : File
  pub last_escape : File
  pub upgrading : Bool
  pub crashes : String → File
  pub starts : String → File
  pub escapes : List EscapeLine

pub data ReadError : Type 0 where
  not_exist : ReadError
  read_failed : ReadError
  bad_content : Text → ReadError

pub data Reading : Type 0 where
  found : Allele → Reading
  failed : ReadError → Reading

-- The test of `a != Xm && a != Xp`.
unfoldable pub reading_of : Text → Reading
unfolding allele_text
reading_of a =
    if text_eq a (allele_text xm)
    then found xm
    else (if text_eq a (allele_text xp) then found xp else failed (bad_content a))

unfoldable pub read_file : File → Reading
unfolding reading_of
read_file absent = failed not_exist
read_file unreadable = failed read_failed
read_file (holds t) = reading_of (trim_space t)

unfoldable pub read : Disk → Reading
unfolding read_file
read d = read_file d.choice

-- How a call of writeAtomic ends: the temporary file or the rename fails and nothing changes, the
-- new content is in place, or it is in place and only the sync of the directory fails.
pub data Write : Type 0 where
  done refused unsynced : Write

unfoldable pub write_atomic : Write → Text → File → File × Bool
write_atomic done t old = (holds t, true)
write_atomic refused t old = (old, false)
write_atomic unsynced t old = (holds t, false)

unfoldable pub format_times : List ℤ → Text
format_times [] = []
format_times (t ∷ ts) = format_int t ++ 10 ∷ format_times ts

-- What is written for an allele reads back as that allele.
pub read_file-allele_text : (a : Allele) → read_file (holds (allele_text a ++ 10 ∷ [])) ≡ found a
unfolding read_file allele_text trim_space
read_file-allele_text xm = refl
read_file-allele_text xp = refl

pub other-ne : (a : Allele) → allele_eq (other a) a ≡ false
unfolding other
other-ne xm = refl
other-ne xp = refl

pub other-other : (a : Allele) → other (other a) ≡ a
unfolding other
other-other xm = refl
other-other xp = refl

pub allele_eq_sound : (a b : Allele) → allele_eq a b ≡ true → a ≡ b
allele_eq_sound a b h = ground arith

pub allele_eq_refl : (a : Allele) → allele_eq a a ≡ true
allele_eq_refl a = ground arith
