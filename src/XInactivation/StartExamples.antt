-- ===== src/XInactivation/StartExamples.antt =====
-- The theorems on starts and on the wrapper at concrete nodes.
use kyvernetria.XInactivation.Examples.{fine, node, hasty}
use kyvernetria.XInactivation.Disk.{
  xm, xp, allele_text, absent, Disk, found, read, read_file, reading_of,
}
use kyvernetria.XInactivation.Cell.{second}
use kyvernetria.Text.Fields.{is_space, trim_space, trim_left}
use kyvernetria.Text.Split.{has_prefix, split, split_from}
use kyvernetria.Text.Decimal.{parse_int}
use kyvernetria.XInactivation.Start.{StartOs, starts, fresh, ended, expressed, look, publish}
use kyvernetria.XInactivation.Start.Race.{
  Race, Reach, move, here, next, looks, publishes, starters_agree, first_boot_unique,
}
use kyvernetria.XInactivation.Start.Once.{expressed_once}
use kyvernetria.XInactivation.Wrapper.{
  Wrapper, Env, mosaic, with_emulation, is_emulation, ok, xp_minor, checked_minor, emulated_prefix,
}
use kyvernetria.XInactivation.Wrapper.Supervise.{kill_due, tick, supervise, supervise-stopped}
use kyvernetria.Text.{Text, codes}
use kyvernetria.Prelude.{
  ℕ, ◌*◌, ◌≡◌, ◌≢◌, refl, true, false, List, [], ◌∷◌, ◌++◌, none, some, str_eq_iff,
}

-- Two starters on a new node: the first publishes its choice, the second reads it.
abbrev first_boot_os : StartOs
first_boot_os = record { random = some xp; mkdir = true; temp = true; link = true; sync = true }

abbrev empty_node : Disk
empty_node = record (node xm) { choice = absent }

abbrev at_start : Race
at_start = record { disk = empty_node; phase = λ i. fresh }

abbrev one_picked : Race
one_picked = record at_start { phase = move 0 (look first_boot_os empty_node) (λ i. fresh) }

abbrev one_done : Race
one_done = record {
  disk = (publish first_boot_os xp empty_node).0;
  phase = move 0 (publish first_boot_os xp empty_node).1 one_picked.phase;
}

abbrev both_done : Race
both_done = record one_done { phase = move 1 (look first_boot_os one_done.disk) one_done.phase }

start_path : Reach at_start both_done
unfolding look read read_file
start_path =
    next
      (next (next here (looks at_start 0 first_boot_os refl))
        (publishes one_picked 0 first_boot_os xp refl))
      (looks one_done 1 first_boot_os refl)

one_ends : both_done.phase 0 ≡ ended (starts xp true)
unfolding publish
one_ends = refl

two_ends : both_done.phase 1 ≡ ended (starts xp false)
unfolding publish look read read_file reading_of allele_text trim_space trim_left is_space
two_ends = refl

starters_agree_example : (xp ≡ xp) × (read both_done.disk ≡ found xp)
starters_agree_example =
    starters_agree at_start both_done 0 1 xp xp (λ i. refl) start_path true false one_ends two_ends

abbrev first_starter : ℕ
first_starter = 0

first_boot_unique_example : first_starter ≡ first_starter
first_boot_unique_example =
    first_boot_unique at_start both_done first_starter first_starter xp xp (λ i. refl) start_path
      one_ends one_ends

boots : (expressed first_boot_os (λ d. d) (λ d. d) empty_node).1 ≡ ended (starts xp true)
unfolding expressed look read read_file publish
boots = refl

expressed_once_example :
    expressed first_boot_os
      (λ d. d)
      (λ d. d)
      (expressed first_boot_os (λ d. d) (λ d. d) empty_node).0
    ≡ ((expressed first_boot_os (λ d. d) (λ d. d) empty_node).0, ended (starts xp false))
expressed_once_example =
    expressed_once first_boot_os first_boot_os (λ d. d) (λ d. d) (λ d. d) (λ d. d) empty_node xp
      true boots

abbrev server : Wrapper
server = record {
  component = "kube-apiserver";
  cell = hasty;
  pinned = false;
  min_uptime = 60 * second;
}

abbrev exit_code : ℕ
exit_code = 1

supervise-stopped_example :
    supervise server fine xm true
      ([] ++ tick (found xp) ∷ kill_due ∷ [])
      137
      second
      (100 * second)
      (node xp)
    ≡ (137, none)
supervise-stopped_example =
    supervise-stopped server fine xm [] (tick (found xp)) (kill_due ∷ []) 137 second (100 * second)
      (node xp) (refl, refl, refl)

abbrev no_env : Env
no_env name = []

scheduler-ne : "kube-scheduler" ≢ mosaic
scheduler-ne e = absurd (cc ((str_eq_iff "kube-scheduler" mosaic).1 e))

abbrev one_argument : List Text
one_argument = codes "--v=2" ∷ []

abbrev emulating : List Text
emulating = one_argument ++ (emulated_prefix ++ codes "1.34") ∷ []

emulates : with_emulation no_env (some (codes "1.34")) one_argument ≡ ok emulating
unfolding with_emulation is_emulation xp_minor checked_minor has_prefix split split_from trim_space
    trim_left is_space parse_int
emulates = refl
