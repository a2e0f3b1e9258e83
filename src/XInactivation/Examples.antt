-- ===== src/XInactivation/Examples.antt =====
-- The theorems on RecordCrash at concrete nodes and crashes.
use kyvernetria.XInactivation.Disk.{
  Allele, xm, allele_text, absent, holds, Disk, found, read, read_file, reading_of, write_atomic,
  done,
}
use kyvernetria.XInactivation.Cell.{
  Cell, second, Os, escape_blocked, recent, recent_from, blocked_by_file, blocked_by,
}
use kyvernetria.XInactivation.Crash.{
  record_crash, crash_times, locked, judge, escape_unless, escape, settle,
}
use kyvernetria.XInactivation.Crash.Stamp.{IsBootId}
use kyvernetria.Text.Fields.{is_space, trim_space, trim_left, fields}
use kyvernetria.XInactivation.Crash.Safety.{Crash, crash, escapes_of, run}
use kyvernetria.XInactivation.Crash.Choice.{switched, MaySwitch, record_crash-switched_iff}
use kyvernetria.XInactivation.Crash.Switches.{switches_of, switches_of-le-one, switch_cools_down}
use kyvernetria.XInactivation.Crash.Loop.{crash_at, crash_loop_escapes}
use kyvernetria.XInactivation.Wrapper.{Env}
use kyvernetria.XInactivation.Wrapper.Settings.{new_wrapper, new_wrapper-cautious}
use kyvernetria.Text.{codes}
use kyvernetria.Prelude.{
  ℕ, ◌*◌, ◌<◌, ◌≤◌, ◌≡◌, refl, ◌↔◌, inr, if◌then◌else◌, str_eq, true, false, [], ◌∷◌, ◌++◌, none,
  arith, map,
}

abbrev pub cell : Cell
cell = record {
  escape_crashes = 3;
  escape_window = 600 * second;
  cooldown = 3600 * second;
  boot_id = codes "b1";
}

abbrev pub fine : Os
fine = record {
  mkdir = true;
  lock = true;
  history = done;
  choice = done;
  stamp = done;
  stuck = λ component. false;
  any_stuck = false;
  append = true;
}

abbrev pub node : Allele → Disk
node a = record {
  choice = holds (allele_text a ++ 10 ∷ []);
  last_escape = absent;
  upgrading = false;
  crashes = λ component. absent;
  starts = λ component. absent;
  escapes = [];
}

abbrev server_crash : ℕ → Crash
server_crash s = crash_at "kube-apiserver" xm (s * second)

-- One crash is enough for this cell.
abbrev pub hasty : Cell
hasty = record cell { escape_crashes = 1 }

b1-IsBootId : IsBootId (codes "b1")
unfolding is_space
b1-IsBootId = (λ e. cc e, (refl, (refl, tt)))

switches_of-le-one_example :
    switches_of hasty (server_crash 100 ∷ server_crash 101 ∷ server_crash 102 ∷ []) (node xm) ≤ 1
switches_of-le-one_example =
    switches_of-le-one hasty (server_crash 100 ∷ server_crash 101 ∷ server_crash 102 ∷ []) (node xm)
      b1-IsBootId ((refl, λ e. cc e), ((refl, λ e. cc e), ((refl, λ e. cc e), tt)))

hasty_escapes : (crash hasty (server_crash 100) (node xm)).decision.escaped ≡ true
unfolding crash record_crash crash_times recent recent_from locked judge escape_unless escape settle
    read read_file reading_of allele_text escape_blocked blocked_by_file blocked_by write_atomic
    fields trim_space
hasty_escapes = refl

switch_cools_down_example :
    ((crash hasty (server_crash 200) (crash hasty (server_crash 100) (node xm)).disk).disk.choice
      ≡ (crash hasty (server_crash 100) (node xm)).disk.choice)
    × ((crash hasty
          (server_crash 200)
          (crash hasty (server_crash 100) (node xm)).disk).disk.last_escape
        ≡ (crash hasty (server_crash 100) (node xm)).disk.last_escape)
    × ((crash hasty
          (server_crash 200)
          (crash hasty (server_crash 100) (node xm)).disk).decision.escaped
        ≡ false)
switch_cools_down_example =
    switch_cools_down hasty hasty (server_crash 100) (server_crash 200) (node xm)
      (crash hasty (server_crash 100) (node xm)).disk hasty_escapes refl refl (inr b1-IsBootId)
      (omega arith) (omega arith) (omega arith)

record_crash-switched_iff_example :
    ((switched (node xm) (record_crash hasty fine "kube-apiserver" xm (100 * second) (node xm)).disk
        ≡ true)
      ↔ MaySwitch hasty fine "kube-apiserver" xm (100 * second) (node xm))
    × (((record_crash hasty fine "kube-apiserver" xm (100 * second) (node xm)).decision.escaped
          ≡ true)
        ↔ (MaySwitch hasty fine "kube-apiserver" xm (100 * second) (node xm)
            × (fine.choice ≡ done)))
record_crash-switched_iff_example =
    record_crash-switched_iff hasty fine "kube-apiserver" xm (100 * second) (node xm)

-- The crash switches the node, and a synced directory is told.
hasty_switches :
    switched (node xm) (record_crash hasty fine "kube-apiserver" xm (100 * second) (node xm)).disk
    ≡ true
unfolding record_crash crash_times recent recent_from locked judge escape_unless escape settle read
    read_file reading_of allele_text escape_blocked blocked_by_file blocked_by write_atomic fields
    trim_space
hasty_switches = refl

node-xm : read (node xm) ≡ found xm
unfolding read read_file reading_of allele_text fields trim_space trim_left is_space
node-xm = refl

node-free : escape_blocked cell (102 * second) (node xm) ≡ none
unfolding escape_blocked blocked_by_file
node-free = refl

crash_loop_escapes_example :
    (escapes_of cell
        (map (crash_at "kube-apiserver" xm) (100 * second ∷ 101 * second ∷ []))
        (node xm)
      ≡ 0)
    × ((crash cell (crash_at "kube-apiserver" xm (102 * second)) (
          run cell
            (map (crash_at "kube-apiserver" xm) (100 * second ∷ 101 * second ∷ []))
            (node xm))).decision.escaped
        ≡ true)
crash_loop_escapes_example =
    crash_loop_escapes cell "kube-apiserver" xm (100 * second) (100 * second ∷ 101 * second ∷ [])
      (102 * second) (node xm) (omega arith, (omega arith, omega arith)) (omega arith) (omega arith)
      refl refl node-xm node-free

-- One crash is asked for, and the window cannot be read.
abbrev careless : Env
careless name = if str_eq name "KYVERNETRIA_ESCAPE_CRASHES" then codes "1" else codes "soon"

new_wrapper-cautious_example :
    let s = new_wrapper (λ v. none) careless (codes "b1") "kube-apiserver" in
    ((record_crash s.wrapper.cell fine "kube-apiserver" xm
        (100 * second)
        (node xm)).decision.escaped
      ≡ false)
    × (0 < s.wrapper.cell.escape_window)
    × (0 < s.wrapper.cell.cooldown)
    × (0 < s.wrapper.min_uptime)
    × (0 < s.stop_timeout)
    × (0 < s.follow)
new_wrapper-cautious_example =
    new_wrapper-cautious (λ v. none) careless (codes "b1") "kube-apiserver" fine xm (100 * second)
      (node xm) refl
