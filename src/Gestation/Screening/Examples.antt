-- ===== src/Gestation/Screening/Examples.antt =====
-- The theorems on screening and growth at concrete services.
use kyvernetria.Text.{Text, codes}
use kyvernetria.Prelude.Int.{ℤ, pos}
use kyvernetria.Prelude.Sort.{sort_by}
use kyvernetria.Gestation.Growth.{Sample, bands_of, rank}
use kyvernetria.Gestation.Growth.Ranks.{IsPercentile, bands_of-IsPercentile}
use kyvernetria.Gestation.Growth.Float.{ceil_product, half_even, scale_of, scale, excess}
use kyvernetria.Gestation.Screening.{Source, Container, Template, Exists, clear, screen_references}
use kyvernetria.Gestation.Screening.Needs.{Needs, NeedsSecret}
use kyvernetria.Gestation.Screening.Names.{IsClear, screen_references-IsClear_iff}
use kyvernetria.Gestation.Screening.Room.{
  ResourceList, Quota, cpu, memory, absent, quantity_of, is_short, screen_quota, shortages, needed,
  repeated, available,
}
use kyvernetria.Gestation.Screening.Quotas.{HasRoom, screen_quota-IsClear}
use kyvernetria.Gestation.Screening.Summary.{Facts, screen, summarize}
use kyvernetria.Gestation.Screening.Silent.{Sound, screen-silent}
use kyvernetria.Prelude.{
  ◌+◌, ◌≡◌, ◌≢◌, ◌↔◌, refl, true, false, none, some, List, [], ◌∷◌, arith, All,
}

abbrev used_cpu : List ℤ
used_cpu = pos 30 ∷ pos 10 ∷ pos 50 ∷ pos 20 ∷ pos 40 ∷ pos 10 ∷ []

bands_of-IsPercentile_example :
    IsPercentile 3 used_cpu (bands_of used_cpu).p3
    × IsPercentile 15 used_cpu (bands_of used_cpu).p15
    × IsPercentile 50 used_cpu (bands_of used_cpu).p50
    × IsPercentile 85 used_cpu (bands_of used_cpu).p85
    × IsPercentile 97 used_cpu (bands_of used_cpu).p97
bands_of-IsPercentile_example = bands_of-IsPercentile used_cpu (omega arith) (omega arith)

-- 7 / 100 * 100 is above 7 in float64.
rank_test : rank 7 100 ≡ 8
unfolding rank ceil_product half_even scale_of scale excess
rank_test = refl

abbrev measured : Sample
measured = record { time = pos 1; cpu_milli = pos 30; memory_bytes = pos 1000; pods = pos 1 }

abbrev nothing : Source
nothing = record { secret = none; config_map = none }

abbrev from_secret : Text → Source
from_secret name = record {
  secret = some (record { name = name; optional = none });
  config_map = none;
}

abbrev server : Container
server = record {
  name = codes "server";
  image = codes "shop/web:1";
  env_from = from_secret (codes "db") ∷ [];
  env = nothing ∷ [];
  requests = (cpu, pos 100) ∷ (memory, pos 1000) ∷ [];
  readiness_probe = true;
  liveness_probe = false;
}

abbrev template : Template
template = record {
  image_pull_secrets = codes "registry" ∷ [];
  volumes = [];
  init_containers = [];
  containers = server ∷ [];
}

abbrev all_exist : Exists
all_exist n = some true

screen_references-IsClear_iff_example : IsClear (screen_references all_exist all_exist template) ↔ (
    ((n : Text) → n ≢ [] → NeedsSecret n template → all_exist n ≡ some true)
    × ((n : Text) → n ≢ [] → Needs (λ s. s.config_map) n template → all_exist n ≡ some true))
screen_references-IsClear_iff_example = screen_references-IsClear_iff all_exist all_exist template

abbrev size : ResourceList
size = (cpu, pos 100) ∷ (memory, pos 1000) ∷ []

abbrev limited : Quota
limited = record {
  name = codes "team";
  status_hard = (codes "pods", pos 10) ∷ (codes "requests.cpu", pos 1000) ∷ [];
  spec_hard = (codes "pods", pos 10) ∷ [];
  used = (codes "pods", pos 6) ∷ (codes "requests.cpu", pos 900) ∷ [];
}

abbrev placeholders : ResourceList
placeholders = (cpu, pos 300) ∷ []

screen_quota-IsClear_example : All (λ q. HasRoom q placeholders (2 + 1) 100 1000) (limited ∷ [])
unfolding screen_quota shortages needed repeated quantity_of available is_short sort_by
screen_quota-IsClear_example =
    screen_quota-IsClear 2 100 1000 size placeholders (limited ∷ []) (omega arith) refl refl refl

abbrev facts : Facts
facts = record {
  secrets = all_exist;
  config_maps = all_exist;
  claims = λ n. absent;
  classes = λ n. absent;
  quotas = some (limited ∷ []);
  budgets = some [];
  image_result = λ n. clear;
}

screen-silent_example : (some size ≢ none) × Sound facts template
unfolding screen summarize shortages needed repeated quantity_of available is_short sort_by
screen-silent_example = screen-silent (pos 2) (some size) placeholders template facts refl
