-- ===== src/XInactivation/Cell.antt =====
-- x-inactivation/cell.go: the cell's settings, the window over crashes, what blocks an escape, and the
-- files that recording a crash writes.
use kyvernetria.XInactivation.Disk.{
  Allele, File, absent, unreadable, holds, Disk, ReadError, Write, write_atomic, format_times,
}
use kyvernetria.Prelude.Int.{ℤ, pos, negsuc}
use kyvernetria.Text.{Text, text_eq}
use kyvernetria.Text.Fields.{fields}
use kyvernetria.Text.Decimal.{parse_int, format_nat}
use kyvernetria.Prelude.{
  ℕ, suc, ◌+◌, ◌-◌, ◌*◌, ◌/◌, Bool, true, false, List, [], ◌∷◌, ◌++◌, String, Option, none, some,
  ltb, leb, if◌then◌else◌, min, str_eq,
}

-- Durations and the clock are in nanoseconds; the clock stands after 1970.
abbrev pub second : ℕ
second = 1000000000

abbrev pub max_duration : ℕ
max_duration = 9223372036854775807

-- The settings of a cell and the boot that it runs in; "" for an unknown boot.
pub record Cell : Type 0 where
  pub escape_crashes : ℕ
  pub escape_window : ℕ
  pub cooldown : ℕ
  pub boot_id : Text

-- now.Sub(time.Unix(sec, 0)), which stops at the largest duration; `none` if that is after now.
unfoldable pub age : ℕ → ℤ → Option ℕ
age now (pos s) = if ltb now (s * second) then none else some (min (now - s * second) max_duration)
age now (negsuc s) = some (min (now + suc s * second) max_duration)

unfoldable pub in_window : Cell → ℕ → ℤ → Bool
unfolding age
in_window c now sec = elim (age now sec) [ none ↦ false | some a ↦ leb a c.escape_window ]

unfoldable pub recent_from : Cell → ℕ → List Text → List ℤ
unfolding in_window
recent_from c now [] = []
recent_from c now (line ∷ lines) = elim (parse_int line) [
  | none ↦ recent_from c now lines
  | some sec ↦ elim (in_window c now sec) [
    | true ↦ sec ∷ recent_from c now lines
    | false ↦ recent_from c now lines
  ]
]

unfoldable pub recent : Cell → File → ℕ → List ℤ
unfolding recent_from
recent c absent now = []
recent c unreadable now = []
recent c (holds t) now = recent_from c now (fields t)

-- Why an escape is blocked.
pub data Block : Type 0 where
  by_upgrade : Block
  once_per_boot : Block
  cooling_since : ℤ → Block

unfoldable pub cooling : Cell → ℕ → ℤ → Option ℕ → Option Block
cooling c now sec none = none
cooling c now sec (some a) = if ltb a c.cooldown then some (cooling_since sec) else none

unfoldable pub cooling_at : Cell → ℕ → Option ℤ → Option Block
unfolding cooling age
cooling_at c now none = none
cooling_at c now (some sec) = cooling c now sec (age now sec)

-- fields[1] == c.bootID(), where there is a second field.
unfoldable pub same_boot : Cell → List Text → Bool
same_boot c [] = false
same_boot c (boot ∷ rest) = text_eq boot c.boot_id

unfoldable pub blocked_by : Cell → ℕ → List Text → Option Block
unfolding cooling_at same_boot
blocked_by c now [] = none
blocked_by c now (stamp ∷ rest) =
    if same_boot c rest then some once_per_boot else cooling_at c now (parse_int stamp)

unfoldable pub blocked_by_file : Cell → ℕ → File → Option Block
unfolding blocked_by
blocked_by_file c now absent = none
blocked_by_file c now unreadable = none
blocked_by_file c now (holds t) = blocked_by c now (fields t)

unfoldable pub escape_blocked : Cell → ℕ → Disk → Option Block
unfolding blocked_by_file
escape_blocked c now d =
    if d.upgrading then some by_upgrade else blocked_by_file c now d.last_escape

pub data Reason : Type 0 where
  silent : Reason
  counting : ℕ → Reason
  unreadable_allele : Reason
  already_switched : Allele → Reason
  blocked : Block → Reason
  crash_loop : ℕ → Reason

pub record Decision : Type 0 where
  pub crashes : ℕ
  pub escaped : Bool
  pub to : Allele
  pub reason : Reason

pub data CrashError : Type 0 where
  mkdir_failed lock_failed history_failed choice_failed stamp_failed clear_failed append_failed :
      CrashError
  allele_failed : ReadError → CrashError

-- How the calls of the operating system end in one run of RecordCrash. `stuck` says of which
-- histories the removal fails.
pub record Os : Type 0 where
  pub mkdir : Bool
  pub lock : Bool
  pub history : Write
  pub choice : Write
  pub stamp : Write
  pub stuck : String → Bool
  pub any_stuck : Bool
  pub append : Bool

-- The disk, the decision and the joined errors; no error is nil.
pub record Outcome : Type 0 where
  pub disk : Disk
  pub decision : Decision
  pub errors : List CrashError

abbrev pub error_unless : Bool → CrashError → List CrashError
error_unless true e = []
error_unless false e = e ∷ []

-- writeAtomic(history, formatTimes(recent)).
unfoldable pub save_history : Os → String → List ℤ → Disk → Disk × List CrashError
unfolding write_atomic format_times
save_history os component times d =
    let (file, written) = write_atomic os.history (format_times times) (d.crashes component) in
    (
      record d { crashes = λ name. if str_eq name component then file else d.crashes name },
      error_unless written history_failed,
    )

abbrev pub clear_file : Bool → File → File
clear_file true file = file
clear_file false file = absent

unfoldable pub clear_histories : Os → Disk → Disk
clear_histories os d = record d {
  crashes = λ name. clear_file (os.stuck name) (d.crashes name);
  starts = λ name. clear_file (os.stuck name) (d.starts name);
}

-- "<unix time> <boot id>\n", or without the boot id where it is unknown.
unfoldable pub stamp_text : Cell → ℕ → Text
stamp_text c now =
    format_nat (now / second)
    ++ (if text_eq c.boot_id [] then 10 ∷ [] else 32 ∷ c.boot_id ++ 10 ∷ [])
