-- ===== src/Gestation/Apgar/Bounds.antt =====
-- The Apgar score lies between 0 and 10, and 10 means that nothing is wrong.
use kyvernetria.Gestation.Apgar.{
  Signs, score, add32, appearance_of, pulse_of, grimace_of, activity_of, respiration_of, have,
}
use kyvernetria.Prelude.Int.{ℤ, pos, ◌≤ℤ◌, ◌<ℤ◌, +ℤ_nonneg, wrap32_fits}
use kyvernetria.Prelude.{ℕ, ◌+◌, ◌≤◌, ◌≡◌, ◌↔◌, ◌∙◌, ap, sym, false, arith}

appearance-le : (s : Signs) → appearance_of s ≤ 2
unfolding appearance_of
appearance-le s = ground arith

pulse-le : (s : Signs) → pulse_of s ≤ 2
unfolding pulse_of
pulse-le s = ground arith

grimace-le : (s : Signs) → grimace_of s ≤ 2
unfolding grimace_of
grimace-le s = ground arith

activity-le : (s : Signs) → activity_of s ≤ 2
unfolding activity_of
activity-le s = ground arith

respiration-le : (s : Signs) → respiration_of s ≤ 2
unfolding respiration_of
respiration-le s = ground arith

ruleset sign_bounds = (arith, appearance-le, pulse-le, grimace-le, activity-le, respiration-le)

add32_small : (a b : ℕ) → a + b ≤ 10 → add32 (pos a) (pos b) ≡ pos (a + b)
add32_small a b h = rw (+ℤ_nonneg a b) (wrap32_fits (a + b) (omega arith))

abbrev sum_of : Signs → ℕ
sum_of s = appearance_of s + pulse_of s + grimace_of s + activity_of s + respiration_of s

-- The total is the sum of the five signs, which never wraps around.
total_lem : (minute : ℤ) (s : Signs) → (score minute s).total ≡ pos (sum_of s)
unfolding score
total_lem minute s = rw (add32_small (appearance_of s) (pulse_of s) (omega sign_bounds)) (
    rw (add32_small (appearance_of s + pulse_of s) (grimace_of s) (omega sign_bounds)) (
      rw
        (add32_small (appearance_of s + pulse_of s + grimace_of s) (activity_of s)
          (omega sign_bounds))
        (add32_small (appearance_of s + pulse_of s + grimace_of s + activity_of s)
          (respiration_of s) (omega sign_bounds))))

-- The five signs lie between 0 and 2, and the total is their sum and lies between 0 and 10, for any
-- observations at all.
score_bounds :
    (minute : ℤ) (s : Signs)
    → (pos 0 ≤ℤ (score minute s).total)
      × ((score minute s).total ≤ℤ pos 10)
      × ((score minute s).total
          ≡ pos (appearance_of s + pulse_of s + grimace_of s + activity_of s + respiration_of s))
      × (appearance_of s ≤ 2)
      × (pulse_of s ≤ 2)
      × (grimace_of s ≤ 2)
      × (activity_of s ≤ 2)
      × (respiration_of s ≤ 2)
score_bounds minute s = (
  rw (total_lem minute s) (omega arith),
  rw (total_lem minute s) (omega sign_bounds),
  total_lem minute s,
  appearance-le s,
  pulse-le s,
  grimace-le s,
  activity-le s,
  respiration-le s,
)

-- What a launch without a fault looks like.
pub record Flawless (s : Signs) : Type 0 where
  pub wanted : pos 0 <ℤ s.desired
  pub all_ready : s.desired ≤ℤ s.ready
  pub steady : s.crash_looping ≡ false
  pub no_restarts : s.restarts ≤ℤ pos 0
  pub alive : s.liveness_failures ≤ℤ pos 0
  pub quiet : s.warnings ≡ pos 0
  pub all_serving : s.desired ≤ℤ have s
  pub no_kills : s.oom_kills ≤ℤ pos 0
  pub no_evictions : s.evictions ≤ℤ pos 0

all_two :
    (s : Signs)
    → sum_of s ≡ 10
    → (appearance_of s ≡ 2)
      × (pulse_of s ≡ 2)
      × (grimace_of s ≡ 2)
      × (activity_of s ≡ 2)
      × (respiration_of s ≡ 2)
all_two s h = omega sign_bounds

appearance_two : (s : Signs) → appearance_of s ≡ 2 → (pos 0 <ℤ s.desired) × (s.desired ≤ℤ s.ready)
unfolding appearance_of
appearance_two s h = ground arith

pulse_two :
    (s : Signs)
    → pulse_of s ≡ 2
    → (s.crash_looping ≡ false) × (s.restarts ≤ℤ pos 0) × (s.liveness_failures ≤ℤ pos 0)
unfolding pulse_of
pulse_two s h = ground arith

grimace_two : (s : Signs) → grimace_of s ≡ 2 → s.warnings ≡ pos 0
unfolding grimace_of
grimace_two s h = ground arith

activity_two : (s : Signs) → activity_of s ≡ 2 → s.desired ≤ℤ have s
unfolding activity_of
activity_two s h = ground arith

respiration_two :
    (s : Signs) → respiration_of s ≡ 2 → (s.oom_kills ≤ℤ pos 0) × (s.evictions ≤ℤ pos 0)
unfolding respiration_of
respiration_two s h = ground arith

Flawless-appearance : (s : Signs) → Flawless s → appearance_of s ≡ 2
unfolding appearance_of
Flawless-appearance s f = ground arith

Flawless-pulse : (s : Signs) → Flawless s → pulse_of s ≡ 2
unfolding pulse_of
Flawless-pulse s f = ground arith

Flawless-grimace : (s : Signs) → Flawless s → grimace_of s ≡ 2
unfolding grimace_of
Flawless-grimace s f = ground arith

Flawless-activity : (s : Signs) → Flawless s → activity_of s ≡ 2
unfolding activity_of
Flawless-activity s f = ground arith

Flawless-respiration : (s : Signs) → Flawless s → respiration_of s ≡ 2
unfolding respiration_of
Flawless-respiration s f = ground arith

Flawless-sum : (s : Signs) → Flawless s → sum_of s ≡ 10
Flawless-sum s f = omega (
  arith,
  Flawless-appearance s f,
  Flawless-pulse s f,
  Flawless-grimace s f,
  Flawless-activity s f,
  Flawless-respiration s f,
)

sum-Flawless : (s : Signs) → sum_of s ≡ 10 → Flawless s
sum-Flawless s h =
    let (a, p, g, v, r) = all_two s h in
    record {
      wanted = (appearance_two s a).0;
      all_ready = (appearance_two s a).1;
      steady = (pulse_two s p).0;
      no_restarts = (pulse_two s p).1;
      alive = (pulse_two s p).2;
      quiet = grimace_two s g;
      all_serving = activity_two s v;
      no_kills = (respiration_two s r).0;
      no_evictions = (respiration_two s r).1;
    }

pos-injective : (a b : ℕ) → pos a ≡ pos b → a ≡ b
pos-injective a b h = ground arith

-- A total of 10 is given exactly to a launch without a fault: replicas are wanted and all of them are
-- ready and serve, and there are no restarts, crash loops, liveness failures, warnings, OOM kills or
-- evictions.
pub score-Flawless : (minute : ℤ) (s : Signs) → ((score minute s).total ≡ pos 10) ↔ Flawless s
score-Flawless minute s = (
  λ h. sum-Flawless s (pos-injective _ _ (sym (total_lem minute s) ∙ h)),
  λ f. total_lem minute s ∙ ap pos (Flawless-sum s f),
)
