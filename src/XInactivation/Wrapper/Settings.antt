-- ===== src/XInactivation/Wrapper/Settings.antt =====
-- x-inactivation/main.go: the settings that a run takes from the environment, and its exit code.
-- time.ParseDuration is an argument, in nanoseconds, `none` for an error.
use kyvernetria.XInactivation.Disk.{Allele, Disk, absent}
use kyvernetria.XInactivation.Cell.{Cell, second, recent, Os}
use kyvernetria.XInactivation.Crash.{record_crash, crash_times}
use kyvernetria.XInactivation.Crash.Cases.{record_crash-escaped_iff}
use kyvernetria.XInactivation.Wrapper.{Env, Wrapper}
use kyvernetria.Prelude.Int.{ℤ, pos, negsuc}
use kyvernetria.Text.{Text, codes}
use kyvernetria.Text.Decimal.{parse_int}
use kyvernetria.Prelude.{
  ℕ, zero, suc, ◌*◌, ◌≤◌, ◌<◌, ◌≡◌, refl, false, [], ◌∷◌, String, Option, none, some, ltb,
  if◌then◌else◌, arith, length, Bool-cases, inl, inr,
}

-- env.
abbrev pub text_or : Text → Text → Text
text_or [] def = def
text_or (c ∷ v) def = c ∷ v

abbrev pub positive_or : Option ℤ → ℕ → ℕ
positive_or none def = def
positive_or (some (negsuc n)) def = def
positive_or (some (pos zero)) def = def
positive_or (some (pos (suc n))) def = suc n

-- duration.
unfoldable pub duration : (Text → Option ℤ) → Text → ℕ → ℕ
duration parse_duration [] def = def
duration parse_duration (c ∷ v) def = positive_or (parse_duration (c ∷ v)) def

abbrev pub crashes_or_five : Option ℤ → ℕ
crashes_or_five none = 5
crashes_or_five (some (negsuc n)) = 5
crashes_or_five (some (pos n)) = if ltb n 2 then 5 else n

pub record Settings : Type 0 where
  pub state_dir : Text
  pub wrapper : Wrapper
  pub stop_timeout : ℕ
  pub follow : ℕ

-- newWrapper, with the boot that KernelBootID reads.
unfoldable pub new_wrapper : (Text → Option ℤ) → Env → Text → String → Settings
unfolding duration parse_int
new_wrapper parse_duration env boot_id component = record {
  state_dir = text_or (env "KYVERNETRIA_STATE_DIR") (codes "/var/lib/kyvernetria");
  wrapper = record {
    component = component;
    cell = record {
      escape_crashes =
          crashes_or_five (parse_int (text_or (env "KYVERNETRIA_ESCAPE_CRASHES") (codes "5")));
      escape_window = duration parse_duration (env "KYVERNETRIA_ESCAPE_WINDOW") (600 * second);
      cooldown = duration parse_duration (env "KYVERNETRIA_ESCAPE_COOLDOWN") (86400 * second);
      boot_id = boot_id;
    };
    pinned = false;
    min_uptime = duration parse_duration (env "KYVERNETRIA_CRASH_UPTIME") (120 * second);
  };
  stop_timeout = duration parse_duration (env "KYVERNETRIA_STOP_TIMEOUT") (30 * second);
  follow = duration parse_duration (env "KYVERNETRIA_FOLLOW_INTERVAL") (5 * second);
}

crashes_or_five-least : (o : Option ℤ) → 2 ≤ crashes_or_five o
crashes_or_five-least none = omega arith
crashes_or_five-least (some (negsuc n)) = omega arith
crashes_or_five-least (some (pos n)) = ground arith

duration-positive :
    (parse_duration : Text → Option ℤ) (v : Text) (def : ℕ)
    → 0 < def
    → 0 < duration parse_duration v def
unfolding duration
duration-positive parse_duration [] def h = h
duration-positive parse_duration (c ∷ v) def h = positive_or-positive (parse_duration (c ∷ v))
  where
    positive_or-positive : (o : Option ℤ) → 0 < positive_or o def
    positive_or-positive none = h
    positive_or-positive (some (negsuc n)) = h
    positive_or-positive (some (pos zero)) = h
    positive_or-positive (some (pos (suc n))) = omega arith

crash_times-first :
    (c : Cell) (component : String) (now : ℕ) (d : Disk)
    → d.crashes component ≡ absent
    → length (crash_times c component now d) ≡ 1
unfolding crash_times recent
crash_times-first c component now d fresh = rw fresh refl

-- Whatever the environment says, the first crash of a component without a history does not make the node
-- escape, and every duration that the run waits for or measures by is positive.
pub new_wrapper-cautious :
    (parse_duration : Text → Option ℤ) (env : Env) (boot_id : Text) (component : String) (os : Os)
    (a : Allele) (now : ℕ) (d : Disk)
    → d.crashes component ≡ absent
    → let s = new_wrapper parse_duration env boot_id component in
      ((record_crash s.wrapper.cell os component a now d).decision.escaped ≡ false)
      × (0 < s.wrapper.cell.escape_window)
      × (0 < s.wrapper.cell.cooldown)
      × (0 < s.wrapper.min_uptime)
      × (0 < s.stop_timeout)
      × (0 < s.follow)
unfolding new_wrapper
new_wrapper-cautious parse_duration env boot_id component os a now d fresh =
    let c = (new_wrapper parse_duration env boot_id component).wrapper.cell in
    (
      elim (Bool-cases (record_crash c os component a now d).decision.escaped) [
        | inl escaped ↦
            let can = (record_crash-escaped_iff c os component a now d).0 escaped in
            ground (
              arith,
              can.enough,
              crash_times-first c component now d fresh,
              crashes_or_five-least
                  (parse_int (text_or (env "KYVERNETRIA_ESCAPE_CRASHES") (codes "5"))),
            )
        | inr calm ↦ calm
      ],
      duration-positive parse_duration (env "KYVERNETRIA_ESCAPE_WINDOW") (600 * second)
          (omega arith),
      duration-positive parse_duration (env "KYVERNETRIA_ESCAPE_COOLDOWN") (86400 * second)
          (omega arith),
      duration-positive parse_duration (env "KYVERNETRIA_CRASH_UPTIME") (120 * second)
          (omega arith),
      duration-positive parse_duration (env "KYVERNETRIA_STOP_TIMEOUT") (30 * second) (omega arith),
      duration-positive parse_duration (env "KYVERNETRIA_FOLLOW_INTERVAL") (5 * second)
          (omega arith),
    )
