-- ===== src/XInactivation/Crash.antt =====
-- x-inactivation/cell.go: RecordCrash. The lock makes the whole of it one step on the disk.
pub mod Cases
pub mod Stamp
pub mod Safety
pub mod History
pub mod Times
pub mod Loop
pub mod Choice
pub mod Switches
use kyvernetria.XInactivation.Disk.{
  Allele, allele_eq, other, allele_text, EscapeLine, Disk, found, failed, read, Reading,
  write_atomic,
}
use kyvernetria.XInactivation.Cell.{
  Cell, second, recent, Block, escape_blocked, silent, counting, unreadable_allele,
  already_switched, blocked, crash_loop, Decision, CrashError, mkdir_failed, lock_failed,
  choice_failed, stamp_failed, clear_failed, append_failed, allele_failed, Os, Outcome,
  error_unless, save_history, clear_histories, stamp_text,
}
use kyvernetria.Prelude.Int.{ℤ, pos}
use kyvernetria.Prelude.{
  ℕ, ◌/◌, true, false, not, List, [], ◌∷◌, ◌++◌, String, Option, none, some, ltb, if◌then◌else◌,
  length,
}

-- The decision that RecordCrash starts from.
abbrev pub undecided : ℕ → Allele → Decision
undecided n allele = record { crashes = n; escaped = false; to = allele; reason = silent }

-- No escape: the history is written back.
unfoldable pub stay : Os → String → List ℤ → Disk → Decision → List CrashError → Outcome
unfolding save_history
stay os component times d dec errors =
    let (saved, failures) = save_history os component times d in
    record { disk = saved; decision = dec; errors = errors ++ failures }

-- What follows once the other allele is in place: the stamp, the histories and the log.
unfoldable pub settle : Cell → Os → String → Allele → ℕ → ℕ → Disk → Outcome
unfolding write_atomic stamp_text clear_histories other
settle c os component allele now n d =
    let (stamp, stamped) = write_atomic os.stamp (stamp_text c now) d.last_escape in
    let cleared = clear_histories os (record d { last_escape = stamp }) in
    let line : EscapeLine = record {
      at = now;
      component = component;
      from = allele;
      to = other allele;
    } in
    record {
      disk = record cleared {
        escapes = if os.append then cleared.escapes ++ line ∷ [] else cleared.escapes;
      };
      decision = record { crashes = n; escaped = true; to = other allele; reason = crash_loop n };
      errors =
          error_unless stamped stamp_failed
          ++ error_unless (not os.any_stuck) clear_failed
          ++ error_unless os.append append_failed;
    }

unfoldable pub escape : Cell → Os → String → Allele → ℕ → ℕ → Disk → Outcome
unfolding settle allele_text
escape c os component allele now n d =
    let (choice, written) =
      write_atomic os.choice (allele_text (other allele) ++ 10 ∷ []) d.choice in
    let switched = record d { choice = choice } in
    if written
    then settle c os component allele now n switched
    else record { disk = switched; decision = undecided n allele; errors = choice_failed ∷ [] }

unfoldable pub escape_unless :
    Option Block → Cell → Os → String → Allele → ℕ → List ℤ → Disk → Outcome
unfolding escape stay
escape_unless none c os component allele now times d =
    escape c os component allele now (length times) d
escape_unless (some b) c os component allele now times d =
    stay os component times d (record (undecided (length times) allele) { reason = blocked b }) []

unfoldable pub judge : Reading → Cell → Os → String → Allele → ℕ → List ℤ → Disk → Outcome
unfolding escape_unless stay
judge (failed e) c os component allele now times d =
    stay os component times d
      (record (undecided (length times) allele) { reason = unreadable_allele })
      (allele_failed e ∷ [])
judge (found current) c os component allele now times d =
    if allele_eq current allele
    then escape_unless (escape_blocked c now d) c os component allele now times d
    else stay os component times d
        (record (undecided (length times) allele) {
          to = current;
          reason = already_switched current;
        })
        []

-- The crashes within the window, this one included.
unfoldable pub crash_times : Cell → String → ℕ → Disk → List ℤ
unfolding recent
crash_times c component now d = recent c (d.crashes component) now ++ pos (now / second) ∷ []

unfoldable pub locked : Cell → Os → String → Allele → ℕ → List ℤ → Disk → Outcome
unfolding judge stay
locked c os component allele now times d =
    if ltb (length times) c.escape_crashes
    then stay os component times d
        (record (undecided (length times) allele) { reason = counting (length times) }) []
    else judge (read d) c os component allele now times d

unfoldable pub record_crash : Cell → Os → String → Allele → ℕ → Disk → Outcome
unfolding locked crash_times
record_crash c os component allele now d =
    if os.mkdir
    then (if os.lock
        then locked c os component allele now (crash_times c component now d) d
        else record { disk = d; decision = undecided 0 allele; errors = lock_failed ∷ [] })
    else record { disk = d; decision = undecided 0 allele; errors = mkdir_failed ∷ [] }
