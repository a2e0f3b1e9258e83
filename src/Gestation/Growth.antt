-- ===== src/Gestation/Growth.antt =====
-- kubernetes/overlay/pkg/kyvernetria/gestation/growth.go: the measurements of a service and their chart.
pub mod Float
pub mod Exact
pub mod Ranks
pub mod Kept
use kyvernetria.Gestation.Growth.Float.{ceil_product}
use kyvernetria.Text.{Text, codes}
use kyvernetria.Prelude.Int.{ℤ, pos, ltb_ℤ, leb_ℤ, eqb_ℤ, ◌+ℤ◌, ◌*ℤ◌, wrap64, quot_ℤ}
use kyvernetria.Prelude.Sort.{sort_by}
use kyvernetria.Prelude.{
  ℕ, zero, suc, ◌+◌, ◌-◌, ◌*◌, ◌/◌, Bool, true, false, not, ◌&&◌, List, [], ◌∷◌, ◌++◌, map, Option,
  none, some, ltb, leb, if◌then◌else◌, length, drop, take, get_last?,
}

-- MinSamples and MaxSamples.
abbrev pub min_samples : ℕ
min_samples = 6

abbrev pub max_samples : ℕ
max_samples = 336

-- SampleInterval and NewbornSampleInterval, in nanoseconds.
abbrev pub sample_interval : ℤ
sample_interval = pos 3600000000000

abbrev pub newborn_sample_interval : ℤ
newborn_sample_interval = pos 600000000000

-- A time is in nanoseconds.
pub record Sample : Type 0 where
  pub time : ℤ
  pub cpu_milli : ℤ
  pub memory_bytes : ℤ
  pub pods : ℤ

-- AppendSample.
unfoldable pub append_sample : List Sample → Sample → List Sample
append_sample samples s =
    let all = samples ++ s ∷ [] in
    if ltb max_samples (length all) then drop (length all - max_samples) all else all

abbrev pub interval_of : Bool → ℤ
interval_of newborn = if newborn then newborn_sample_interval else sample_interval

abbrev pub due_after : Option Sample → Bool → ℤ → Bool
due_after none newborn now = true
due_after (some s) newborn now = not (ltb_ℤ now (s.time +ℤ interval_of newborn))

-- SampleDue.
unfoldable pub sample_due : List Sample → Bool → ℤ → Bool
unfolding ◌+ℤ◌
sample_due samples newborn now = due_after (get_last? samples) newborn now

pub record Bands : Type 0 where
  pub p3 : ℤ
  pub p15 : ℤ
  pub p50 : ℤ
  pub p85 : ℤ
  pub p97 : ℤ

pub data Hint : Type 0 where
  outgrowing : ℤ → Hint
  mostly_outgrowing : Hint
  too_early : ℕ → Hint
  falling_behind : Hint
  above_curve : Hint
  plenty_of_room : Hint
  on_curve : Hint

pub record Assessment : Type 0 where
  pub resource : Text
  pub samples : ℕ
  pub current : ℤ
  pub request : ℤ
  pub bands : Bands
  pub hint : Hint

-- sorted[i]; the index of a percentile is always in range.
abbrev pub at_index : List ℤ → ℕ → ℤ
at_index [] i = pos 0
at_index (x ∷ xs) zero = x
at_index (x ∷ xs) (suc i) = at_index xs i

-- The rank: p% of n in float64, rounded up, and one at least.
unfoldable pub rank : ℕ → ℕ → ℕ
unfolding ceil_product
rank p n = let r = ceil_product p n in if ltb r 1 then 1 else r

-- percentile.
unfoldable pub percentile : List ℤ → ℕ → ℤ
unfolding rank
percentile [] p = pos 0
percentile (x ∷ xs) p = at_index (x ∷ xs) (rank p (length (x ∷ xs)) - 1)

-- percentOf.
unfoldable pub percent_of : ℤ → ℤ → ℤ
unfolding ◌*ℤ◌
percent_of v of = if eqb_ℤ of (pos 0) then pos 0 else wrap64 (quot_ℤ (wrap64 (v *ℤ pos 100)) of)

abbrev pub sorted : List ℤ → List ℤ
sorted history = sort_by ltb_ℤ history

unfoldable pub bands_of : List ℤ → Bands
unfolding percentile sort_by
bands_of history = record {
  p3 = percentile (sorted history) 3;
  p15 = percentile (sorted history) 15;
  p50 = percentile (sorted history) 50;
  p85 = percentile (sorted history) 85;
  p97 = percentile (sorted history) 97;
}

-- The switch of assess.
unfoldable pub hint_of : ℕ → Bands → ℤ → ℤ → Hint
unfolding ◌*ℤ◌ percent_of
hint_of samples b current request =
    if ltb_ℤ (pos 0) request && leb_ℤ request current
    then outgrowing (percent_of current request)
    else (if leb min_samples samples
          && (ltb_ℤ (pos 0) request && leb_ℤ (wrap64 (pos 9 *ℤ request)) (wrap64 (pos 10 *ℤ b.p85)))
        then mostly_outgrowing
        else (if not (leb min_samples samples)
            then too_early samples
            else (if ltb_ℤ current b.p3
                then falling_behind
                else (if ltb_ℤ b.p97 current
                    then above_curve
                    else (if ltb_ℤ (pos 0) request && leb_ℤ (wrap64 (pos 4 *ℤ b.p97)) request
                        then plenty_of_room
                        else on_curve)))))

-- assess.
unfoldable pub assess : Text → List ℤ → ℤ → ℤ → Assessment
unfolding bands_of hint_of
assess resource history current request = record {
  resource = resource;
  samples = length history;
  current = current;
  request = request;
  bands = bands_of history;
  hint = hint_of (length history) (bands_of history) current request;
}

-- The sample that is judged, and the history that it is judged against.
abbrev pub judged : List Sample → Option Sample → List Sample × Option Sample
judged samples (some s) = (samples, some s)
judged samples none = (take (length samples - 1) samples, get_last? samples)

abbrev pub value_of : (Sample → ℤ) → Option Sample → ℤ
value_of f none = pos 0
value_of f (some s) = f s

-- AssessGrowth.
unfoldable pub assess_growth : List Sample → ℤ → ℤ → Option Sample → List Assessment
unfolding assess
assess_growth samples request_cpu request_memory current =
    let (history, now) = judged samples current in
    assess (codes "cpu") (map (λ s. s.cpu_milli) history) (value_of (λ s. s.cpu_milli) now)
      request_cpu
    ∷ assess (codes "memory") (map (λ s. s.memory_bytes) history)
        (value_of (λ s. s.memory_bytes) now) request_memory
    ∷ []
