-- ===== src/Gestation/Apgar.antt =====
-- gestation/apgar.go: the Apgar score of a launch, when scores are taken, and when one rolls back.
pub mod Bounds
pub mod Schedule
use kyvernetria.Prelude.Int.{ℤ, pos, ◌+ℤ◌, ◌*ℤ◌, ltb_ℤ, leb_ℤ, eqb_ℤ, wrap32}
use kyvernetria.Prelude.{
  ℕ, Bool, true, false, not, ◌&&◌, ◌||◌, List, [], ◌∷◌, ◌++◌, String, Option, none, some,
  if◌then◌else◌, get_last?, str_eq,
}

abbrev pub add32 : ℤ → ℤ → ℤ
add32 a b = wrap32 (a +ℤ b)

-- What the notes say, one constructor for each format.
pub data Note : Type 0 where
  ready : ℤ → ℤ → Note
  pulse : ℤ → ℤ → Bool → Note
  warnings : ℤ → Note
  unserved : ℤ → ℤ → Note
  serving : ℤ → ℤ → Note
  breathing : ℤ → ℤ → Note

pub record Apgar : Type 0 where
  pub minute : ℤ
  pub appearance : ℤ
  pub pulse : ℤ
  pub grimace : ℤ
  pub activity : ℤ
  pub respiration : ℤ
  pub total : ℤ
  pub notes : List Note

pub record Signs : Type 0 where
  pub desired : ℤ
  pub ready : ℤ
  pub running : ℤ
  pub restarts : ℤ
  pub crash_looping : Bool
  pub liveness_failures : ℤ
  pub warnings : ℤ
  pub services : ℤ
  pub ready_endpoint : ℤ
  pub oom_kills : ℤ
  pub evictions : ℤ

unfoldable pub appearance_of : Signs → ℕ
unfolding ◌*ℤ◌
appearance_of s =
    if ltb_ℤ (pos 0) s.desired && leb_ℤ s.desired s.ready
    then 2
    else (if ltb_ℤ (pos 0) s.ready && leb_ℤ s.desired (wrap32 (pos 2 *ℤ s.ready)) then 1 else 0)

unfoldable pub pulse_of : Signs → ℕ
pulse_of s =
    if s.crash_looping || ltb_ℤ s.desired s.restarts
    then 0
    else (if ltb_ℤ (pos 0) s.restarts || ltb_ℤ (pos 0) s.liveness_failures then 1 else 2)

unfoldable pub grimace_of : Signs → ℕ
grimace_of s = if eqb_ℤ s.warnings (pos 0) then 2 else (if leb_ℤ s.warnings (pos 5) then 1 else 0)

-- A service that nobody calls is judged by its running pods.
unfoldable pub have : Signs → ℤ
have s = if eqb_ℤ s.services (pos 0) then s.running else s.ready_endpoint

unfoldable pub activity_of : Signs → ℕ
unfolding have
activity_of s =
    if ltb_ℤ (pos 0) s.desired && leb_ℤ s.desired (have s)
    then 2
    else (if ltb_ℤ (pos 0) (have s) then 1 else 0)

unfoldable pub respiration_of : Signs → ℕ
respiration_of s =
    if leb_ℤ (pos 2) s.oom_kills
    then 0
    else (if eqb_ℤ s.oom_kills (pos 1) || ltb_ℤ (pos 0) s.evictions then 1 else 2)

abbrev pub notes_of : Signs → List Note
notes_of s =
    Note.ready s.ready s.desired
    ∷ Note.pulse s.restarts s.liveness_failures s.crash_looping
    ∷ Note.warnings s.warnings
    ∷ (if eqb_ℤ s.services (pos 0)
        then unserved s.running s.desired
        else serving s.ready_endpoint s.services)
    ∷ breathing s.oom_kills s.evictions
    ∷ []

unfoldable pub score : ℤ → Signs → Apgar
unfolding ◌+ℤ◌
score minute s = record {
  minute = minute;
  appearance = pos (appearance_of s);
  pulse = pos (pulse_of s);
  grimace = pos (grimace_of s);
  activity = pos (activity_of s);
  respiration = pos (respiration_of s);
  total =
      add32
        (add32 (add32 (add32 (pos (appearance_of s)) (pos (pulse_of s))) (pos (grimace_of s)))
          (pos (activity_of s)))
        (pos (respiration_of s));
  notes = notes_of s;
}

-- The lowest reassuring total, and the minute of the last repeat.
abbrev pub reassuring : ℤ
reassuring = pos 7

abbrev pub last_apgar_minute : ℤ
last_apgar_minute = pos 20

unfoldable pub next_after : Apgar → ℤ
unfolding ◌+ℤ◌
next_after last =
    if ltb_ℤ last.minute (pos 5)
    then pos 5
    else (if ltb_ℤ last.total reassuring && ltb_ℤ last.minute last_apgar_minute
        then add32 last.minute (pos 5)
        else pos 0)

abbrev pub next_from : Option Apgar → ℤ
next_from none = pos 1
next_from (some last) = next_after last

-- 0 when scoring is over.
unfoldable pub next_minute : List Apgar → ℤ
next_minute scores = next_from (get_last? scores)

-- What Rollback says beside its decision.
pub data Why : Type 0 where
  nothing rollback_off no_earlier_revision : Why
  returning_to : String → Why

unfoldable pub rollback : Apgar → Bool → String → Bool × Why
rollback score enabled previous =
    if not (eqb_ℤ score.minute (pos 5)) || leb_ℤ reassuring score.total
    then (false, nothing)
    else (if not enabled
        then (false, rollback_off)
        else (if str_eq previous ""
            then (false, no_earlier_revision)
            else (true, returning_to previous)))
