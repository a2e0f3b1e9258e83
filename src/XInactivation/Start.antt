-- ===== src/XInactivation/Start.antt =====
-- x-inactivation/cell.go: Expressed. Starters are not locked: each step of one that another can see
-- is a function of its own, and Race interleaves them.
pub mod Race
pub mod Once
use kyvernetria.XInactivation.Disk.{
  Allele, allele_text, File, absent, unreadable, holds, Disk, ReadError, not_exist, read_failed,
  bad_content, Reading, found, failed, read,
}
use kyvernetria.Prelude.{Bool, true, false, List, [], ◌∷◌, ◌++◌, Option, none, some}

pub data StartError : Type 0 where
  unread : ReadError → StartError
  no_random no_dir no_temp no_link no_sync : StartError

-- What Expressed returns: the allele and whether this is the first boot, or an error.
pub data Start : Type 0 where
  starts : Allele → Bool → Start
  refuses : StartError → Start

-- How far a starter is: it has not looked yet, it has picked, its link found a choice already
-- there, or it has returned.
pub data Phase : Type 0 where
  fresh : Phase
  picked : Allele → Phase
  lost : Phase
  ended : Start → Phase

-- How the calls of the operating system end for one starter; `random` is the pick of c.Random.
pub record StartOs : Type 0 where
  pub random : Option Allele
  pub mkdir : Bool
  pub temp : Bool
  pub link : Bool
  pub sync : Bool

abbrev pub pick : Option Allele → Phase
pick none = ended (refuses no_random)
pick (some a) = picked a

abbrev pub look_at : StartOs → Reading → Phase
look_at os (found a) = ended (starts a false)
look_at os (failed not_exist) = pick os.random
look_at os (failed read_failed) = ended (refuses (unread read_failed))
look_at os (failed (bad_content t)) = ended (refuses (unread (bad_content t)))

-- The first read, and the random choice.
unfoldable pub look : StartOs → Disk → Phase
look os d = look_at os (read d)

abbrev pub synced : Bool → Allele → Phase
synced true p = ended (starts p true)
synced false p = ended (refuses no_sync)

-- link(2) publishes the temporary file only where no choice exists.
abbrev pub link_into : File → StartOs → Allele → Disk → Disk × Phase
link_into absent os p d = (record d { choice = holds (allele_text p ++ 10 ∷ []) }, synced os.sync p)
link_into unreadable os p d = (d, lost)
link_into (holds t) os p d = (d, lost)

abbrev pub link_if : Bool → Bool → Bool → StartOs → Allele → Disk → Disk × Phase
link_if true true true os p d = link_into d.choice os p d
link_if true true false os p d = (d, ended (refuses no_link))
link_if true false link os p d = (d, ended (refuses no_temp))
link_if false temp link os p d = (d, ended (refuses no_dir))

unfoldable pub publish : StartOs → Allele → Disk → Disk × Phase
publish os p d = link_if os.mkdir os.temp os.link os p d

abbrev pub reread_at : Reading → Phase
reread_at (found a) = ended (starts a false)
reread_at (failed e) = ended (refuses (unread e))

unfoldable pub reread : Disk → Phase
reread d = reread_at (read d)

abbrev pub finish : (Disk → Disk) → Disk × Phase → Disk × Phase
finish others (d, fresh) = (d, fresh)
finish others (d, picked p) = (d, picked p)
finish others (d, lost) = let d' = others d in (d', reread d')
finish others (d, ended s) = (d, ended s)

abbrev pub go_on : StartOs → (Disk → Disk) → (Disk → Disk) → Disk → Phase → Disk × Phase
go_on os mid late d fresh = (d, fresh)
go_on os mid late d (picked p) = finish late (publish os p (mid d))
go_on os mid late d lost = (d, lost)
go_on os mid late d (ended s) = (d, ended s)

-- One call of Expressed, with what others do to the disk between its steps.
unfoldable pub expressed : StartOs → (Disk → Disk) → (Disk → Disk) → Disk → Disk × Phase
unfolding look publish reread
expressed os mid late d = go_on os mid late d (look os d)
