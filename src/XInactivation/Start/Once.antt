-- ===== src/XInactivation/Start/Once.antt =====
-- One call of Expressed: the choice is made once, inherited by later starts, and never guessed.
use kyvernetria.XInactivation.Disk.{
  Allele, Disk, File, absent, unreadable, holds, ReadError, not_exist, read_failed, bad_content,
  Reading, found, failed, read, read_file-allele_text,
}
use kyvernetria.XInactivation.Start.{
  StartOs, starts, refuses, unread, Phase, fresh, picked, lost, ended, look_at, look, publish,
  link_if, link_into, reread, finish, go_on, expressed,
}
use kyvernetria.Prelude.{◌≡◌, ◌≢◌, refl, ap, ◌∙◌, Bool, true, false, arith}

-- Where a phase has returned an allele, the disk reads as that allele.
abbrev Settled : Disk × Phase → Type 0
Settled (d, p) = (a : Allele) (f : Bool) → p ≡ ended (starts a f) → read d ≡ found a

reread-Settled : (d : Disk) → Settled (d, reread d)
unfolding reread
reread-Settled d a f h = ground arith

finish-Settled : (late : Disk → Disk) (r : Disk × Phase) → Settled r → Settled (finish late r)
finish-Settled late (d, fresh) s = s
finish-Settled late (d, picked p) s = s
finish-Settled late (d, lost) s = reread-Settled (late d)
finish-Settled late (d, ended e) s = s

link_into-Settled : (c : File) (os : StartOs) (p : Allele) (d : Disk) → Settled (link_into c os p d)
link_into-Settled absent os p d a f h =
    unfold read in read_file-allele_text p ∙ ap found (ground arith)
link_into-Settled unreadable os p d a f h = cc
link_into-Settled (holds t) os p d a f h = cc

link_if-Settled :
    (m t l : Bool) (os : StartOs) (p : Allele) (d : Disk) → Settled (link_if m t l os p d)
link_if-Settled true true true os p d a f h = link_into-Settled d.choice os p d a f h
link_if-Settled true true false os p d a f h = cc
link_if-Settled true false l os p d a f h = cc
link_if-Settled false t l os p d a f h = cc

go_on-Settled :
    (os : StartOs) (mid late : Disk → Disk) (d : Disk) (r : Reading) (q : Phase)
    → read d ≡ r
    → look_at os r ≡ q
    → Settled (go_on os mid late d q)
unfolding publish
go_on-Settled os mid late d r fresh e h a f k = cc
go_on-Settled os mid late d r (picked p) e h a f k =
    finish-Settled late (publish os p (mid d))
      (link_if-Settled os.mkdir os.temp os.link os p (mid d)) a f k
go_on-Settled os mid late d r lost e h a f k = cc
go_on-Settled os mid late d r (ended s) e h a f k = ground arith

expressed-Settled :
    (os : StartOs) (mid late : Disk → Disk) (d : Disk) → Settled (expressed os mid late d)
unfolding expressed
expressed-Settled os mid late d =
    go_on-Settled os mid late d (read d) (look os d) refl (unfold look in refl)

-- A node that has a choice starts with it: nothing is drawn and nothing is written.
pub expressed-found :
    (os : StartOs) (mid late : Disk → Disk) (d : Disk) (a : Allele)
    → read d ≡ found a
    → expressed os mid late d ≡ (d, ended (starts a false))
unfolding expressed
expressed-found os mid late d a h = rw (look-found os d a h)
  where
    look-found :
        (os : StartOs) (d : Disk) (a : Allele)
        → read d ≡ found a
        → look os d ≡ ended (starts a false)
    look-found os d a h = unfold look in ap (look_at os) h

-- Once a start has returned an allele, whatever others did meanwhile, every later start on that disk
-- returns the same allele, as not the first boot, and leaves the disk alone.
pub expressed_once :
    (os later : StartOs) (mid late mid' late' : Disk → Disk) (d : Disk) (a : Allele) (first : Bool)
    → (expressed os mid late d).1 ≡ ended (starts a first)
    → let e = (expressed os mid late d).0 in
      expressed later mid' late' e ≡ (e, ended (starts a false))
expressed_once os later mid late mid' late' d a first h =
    expressed-found later mid' late' (expressed os mid late d).0 a
      (expressed-Settled os mid late d a first h)

-- A choice that exists but cannot be read, or is no allele, is an error: nothing is drawn, nothing is
-- written, and the error says what the file held.
pub expressed-unread :
    (os : StartOs) (mid late : Disk → Disk) (d : Disk) (e : ReadError)
    → read d ≡ failed e
    → e ≢ not_exist
    → expressed os mid late d ≡ (d, ended (refuses (unread e)))
unfolding expressed look
expressed-unread os mid late d not_exist h n = absurd (n refl)
expressed-unread os mid late d read_failed h n = rw (h, look)
expressed-unread os mid late d (bad_content t) h n = rw (h, look)
