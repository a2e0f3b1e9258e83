-- ===== src/XInactivation/Crash/Loop.antt =====
-- A crash loop makes an unblocked node escape: EscapeCrashes crashes within the window are enough.
use kyvernetria.XInactivation.Disk.{
  Allele, Disk, absent, holds, found, read, read_file, done, format_times, write_atomic,
}
use kyvernetria.XInactivation.Cell.{Cell, second, escape_blocked, Os, save_history}
use kyvernetria.XInactivation.Crash.{record_crash, locked, stay, crash_times}
use kyvernetria.XInactivation.Crash.Cases.{record_crash-escaped_iff}
use kyvernetria.XInactivation.Crash.Safety.{Crash, crash, run, escapes_of}
use kyvernetria.XInactivation.Crash.Times.{
  Ascending, Records, Between, Between-mono, Between-snoc, recent-Records, map-snoc,
  length-map_snoc, Records-snoc, Ascending-le,
}
use kyvernetria.Prelude.Int.{ℤ, pos}
use kyvernetria.Prelude.{
  ℕ, suc, ◌+◌, ◌-◌, ◌*◌, ◌/◌, ◌<◌, ◌≤◌, ◌≡◌, refl, ap, ◌∙◌, true, false, List, [], ◌∷◌, ◌++◌, map,
  String, none, arith, length, length-append, str_eq_iff,
}

-- Nothing that the operating system does fails.
abbrev pub healthy : Os
healthy = record {
  mkdir = true;
  lock = true;
  history = done;
  choice = done;
  stamp = done;
  stuck = λ name. false;
  any_stuck = false;
  append = true;
}

abbrev pub crash_at : String → Allele → ℕ → Crash
crash_at component allele t = record {
  os = healthy;
  component = component;
  allele = allele;
  now = t;
}

escape_blocked-same :
    (c : Cell) (now : ℕ) (d e : Disk)
    → e.upgrading ≡ d.upgrading
    → e.last_escape ≡ d.last_escape
    → escape_blocked c now e ≡ escape_blocked c now d
unfolding escape_blocked
escape_blocked-same c now d e flag stamp = ground arith

read-same : (d e : Disk) → e.choice ≡ d.choice → read e ≡ read d
unfolding read
read-same d e same = ap read_file same

module _ (c : Cell) (component : String) (a : Allele) (before : Disk) (lo hi : ℕ) where
  -- The disk at time t of the loop: its history holds the crashes so far, the rest is as before.
  record At (ss : List ℕ) (t : ℕ) (d : Disk) : Type 0 where
    records : Records ss (d.crashes component)
    between : Between lo t ss
    since : lo ≤ t
    same_choice : d.choice ≡ before.choice
    same_stamp : d.last_escape ≡ before.last_escape
    same_flag : d.upgrading ≡ before.upgrading

  crash_times-At :
      (ss : List ℕ) (t u : ℕ) (d : Disk)
      → At ss t d
      → t ≤ u
      → u - lo / second * second ≤ c.escape_window
      → crash_times c component u d ≡ map pos (ss ++ u / second ∷ [])
  unfolding crash_times
  crash_times-At ss t u d h le w =
      ap (λ l. l ++ pos (u / second) ∷ [])
        (recent-Records c lo u ss (d.crashes component) h.records
          (Between-mono lo t u ss le h.between) w)
      ∙ map-snoc ss (u / second)

  locked_few :
      (u : ℕ) (times : List ℤ) (d : Disk)
      → length times < c.escape_crashes
      → let o = locked c healthy component a u times d in
        (o.decision.escaped ≡ false)
        × (o.disk.crashes component ≡ holds (format_times times))
        × (o.disk.choice ≡ d.choice)
        × (o.disk.last_escape ≡ d.last_escape)
        × (o.disk.upgrading ≡ d.upgrading)
  unfolding locked stay save_history write_atomic
  locked_few u times d few = ground (arith, str_eq_iff component component)

  -- One crash of the loop that is not yet enough is written down, and changes nothing else.
  record_crash-At :
      (ss : List ℕ) (t u : ℕ) (d : Disk)
      → At ss t d
      → t ≤ u
      → u ≤ hi
      → hi - lo / second * second ≤ c.escape_window
      → hi / second < 9223372036854775808
      → suc (length ss) < c.escape_crashes
      → ((crash c (crash_at component a u) d).decision.escaped ≡ false)
        × At (ss ++ u / second ∷ []) u (crash c (crash_at component a u) d).disk
  unfolding crash record_crash
  record_crash-At ss t u d h le top w small few =
      let times = map pos (ss ++ u / second ∷ []) in
      rw (crash_times-At ss t u d h le (omega arith)) (
        let (calm, file, choice, stamp, flag) =
          locked_few u times d (omega (arith, length-map_snoc ss (u / second))) in
        (
          calm,
          record {
            records = Records-snoc ss (u / second) _ file;
            between =
                Between-snoc lo u (u / second) ss (Between-mono lo t u ss le h.between)
                  (omega (arith, h.since));
            since = omega (arith, h.since);
            same_choice = choice ∙ h.same_choice;
            same_stamp = stamp ∙ h.same_stamp;
            same_flag = flag ∙ h.same_flag;
          },
        ))

  run-At :
      (ts : List ℕ) (ss : List ℕ) (t : ℕ) (d : Disk)
      → At ss t d
      → Ascending t ts hi
      → hi - lo / second * second ≤ c.escape_window
      → hi / second < 9223372036854775808
      → length ss + length ts < c.escape_crashes
      → (escapes_of c (map (crash_at component a) ts) d ≡ 0)
        × ((rs : List ℕ) × (length rs ≡ length ss + length ts)
            × At rs hi (run c (map (crash_at component a) ts) d))
  unfolding run escapes_of
  run-At [] ss t d h asc w small few = (
    refl,
    (
      ss,
      omega arith,
      record {
        records = h.records;
        between = Between-mono lo t hi ss asc h.between;
        since = omega (arith, h.since);
        same_choice = h.same_choice;
        same_stamp = h.same_stamp;
        same_flag = h.same_flag;
      },
    ),
  )
  run-At (u ∷ ts) ss t d h asc w small few =
      let (calm, after) =
        record_crash-At ss t u d h asc.0 (Ascending-le u ts hi asc.1) w small (omega arith) in
      let (none_yet, (rs, len, at)) =
        run-At ts (ss ++ u / second ∷ []) u _ after asc.1 w small
          (omega (arith, length-append ss (u / second ∷ []))) in
      (
        rw calm (omega (arith, none_yet)),
        (rs, omega (arith, len, length-append ss (u / second ∷ [])), at),
      )

-- A component that starts without a history and crashes EscapeCrashes times, the last time at `last`
-- and all within the window, makes the node switch at the last crash and at none before it, if the
-- node expresses the allele that crashes, no escape is blocked, the clock's seconds
-- are an int64, and nothing fails.
pub crash_loop_escapes :
    (c : Cell) (component : String) (a : Allele) (first : ℕ) (ts : List ℕ) (last : ℕ) (d : Disk)
    → Ascending first ts last
    → last - first / second * second ≤ c.escape_window
    → last / second < 9223372036854775808
    → suc (length ts) ≡ c.escape_crashes
    → d.crashes component ≡ absent
    → read d ≡ found a
    → escape_blocked c last d ≡ none
    → (escapes_of c (map (crash_at component a) ts) d ≡ 0)
      × ((crash c
            (crash_at component a last)
            (run c (map (crash_at component a) ts) d)).decision.escaped
          ≡ true)
unfolding crash
crash_loop_escapes c component a first ts last d asc w small enough fresh current free =
    let (calm, (rs, len, at)) =
      run-At c component a d first last ts [] first d
        (record {
          records = fresh;
          between = tt;
          since = omega arith;
          same_choice = refl;
          same_stamp = refl;
          same_flag = refl;
        })
        asc w small (omega arith) in
    (
      calm,
      (record_crash-escaped_iff c healthy component a last _).1 (record {
        dir = refl;
        held = refl;
        enough = omega (
          arith,
          ap length (crash_times-At c component a d first last rs last last _ at (omega arith) w),
          length-map_snoc rs (last / second),
        );
        current = read-same d _ at.same_choice ∙ current;
        free = escape_blocked-same c last d _ at.same_flag at.same_stamp ∙ free;
        written = refl;
      }),
    )
