-- ===== src/Controller/Gestation/Measuring.antt =====
-- kubernetes/overlay/pkg/kyvernetria/controller/gestation/care.go: measure, which adds what the pods use to the
-- trajectory of a service.
use kyvernetria.Prelude.Int.{ℤ, pos, wrap32, wrap64, ◌+ℤ◌, quot}
use kyvernetria.Gestation.Growth.{Sample, append_sample, sample_due}
use kyvernetria.Prelude.{Bool, true, false, not, ◌||◌, List, [], ◌∷◌, Option, none, some, length}

-- The usage of a container: MilliValue of its CPU and Value of its memory.
abbrev pub Usage : Type 0
Usage = ℤ × ℤ

unfoldable pub sum_usage : (Usage → ℤ) → List Usage → ℤ → ℤ
unfolding ◌+ℤ◌
sum_usage f [] sum = sum
sum_usage f (u ∷ us) sum = sum_usage f us (wrap64 (sum +ℤ f u))

unfoldable pub sum_pods : (Usage → ℤ) → List (List Usage) → ℤ → ℤ
unfolding sum_usage
sum_pods f [] sum = sum
sum_pods f (p ∷ ps) sum = sum_pods f ps (sum_usage f p sum)

-- What becomes of the note on growth.
pub data Note : Type 0 where
  kept : Note
  cleared : Note
  no_metrics : Note

abbrev pub averaged : List Sample → ℤ → List (List Usage) → List Sample × Note
averaged growth now [] = (growth, kept)
averaged growth now (p ∷ ps) = (
  append_sample growth (record {
    time = now;
    cpu_milli = quot (sum_pods (λ u. u.0) (p ∷ ps) (pos 0)) (length (p ∷ ps));
    memory_bytes = quot (sum_pods (λ u. u.1) (p ∷ ps) (pos 0)) (length (p ∷ ps));
    pods = wrap32 (pos (length (p ∷ ps)));
  }),
  cleared,
)

abbrev pub listed : List Sample → ℤ → Option (List (List Usage)) → List Sample × Note
listed growth now none = (growth, no_metrics)
listed growth now (some pods) = averaged growth now pods

-- measure: whether there is a metrics client, and the answer of the metrics API, `none` for an error.
unfoldable pub measure :
    Bool → List Sample → Bool → ℤ → Option (List (List Usage)) → List Sample × Note
unfolding sample_due append_sample sum_pods
measure has_metrics growth newborn now answer =
    elim (not has_metrics || not (sample_due growth newborn now)) [
      | true ↦ (growth, kept)
      | false ↦ listed growth now answer
    ]
