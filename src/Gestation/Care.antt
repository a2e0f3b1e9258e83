-- ===== src/Gestation/Care.antt =====
-- gestation/care.go: the tiers of newborn care, the two caregivers, and the newborns of a namespace.
pub mod Tiers
pub mod People
use kyvernetria.Prelude.Int.{ℤ, pos, ltb_ℤ}
use kyvernetria.Text.{Text, text_eq, text_ltb}
use kyvernetria.Text.Fields.{trim_space}
use kyvernetria.Prelude.{
  ℕ, ◌+◌, ◌*◌, Bool, true, false, ◌&&◌, ◌||◌, List, [], ◌∷◌, String, Option, none, some, leb, ◌==◌,
  ltb, if◌then◌else◌, str_eq,
}

abbrev pub hour : ℕ
hour = 3600000000000

-- kyvernetria.NewbornCareDuration.
abbrev pub newborn_care_duration : ℕ
newborn_care_duration = 72 * hour

pub record CareTier : Type 0 where
  pub class : String
  pub priority : ℕ
  pub from : ℕ
  pub until : ℕ

unfoldable pub care_tiers : List CareTier
care_tiers =
    record { class = "kyvernetria-newborn-1"; priority = 1000; from = 0; until = 24 * hour }
    ∷ record {
      class = "kyvernetria-newborn-2";
      priority = 500;
      from = 24 * hour;
      until = 48 * hour;
    }
    ∷ record {
      class = "kyvernetria-newborn-3";
      priority = 250;
      from = 48 * hour;
      until = newborn_care_duration;
    }
    ∷ []

unfoldable pub tier_from : ℕ → List CareTier → ℤ → ℕ × String
tier_from i [] since = (0, "")
tier_from i (t ∷ ts) since =
    if ltb_ℤ since (pos t.until) then (i + 1, t.class) else tier_from (i + 1) ts since

-- The tier, 1 to 3, and its class for a service born this long ago; 0 and "" after the care period.
unfoldable pub care_tier : ℤ → ℕ × String
unfolding tier_from care_tiers
care_tier since = tier_from 0 care_tiers since

-- The gentlest step, held while a grown service waits for its caregivers.
unfoldable pub last_tier_class : ℕ × String
last_tier_class = (3, "kyvernetria-newborn-3")

unfoldable pub class_among : String → List CareTier → Bool
class_among name [] = false
class_among name (t ∷ ts) = str_eq t.class name || class_among name ts

unfoldable pub is_newborn_class : String → Bool
unfolding class_among care_tiers
is_newborn_class name = class_among name care_tiers

pub record Caregivers : Type 0 where
  pub primary : Text
  pub secondary : Text

-- What is missing, in a sentence; `named_twice` holds the name.
pub data Missing : Type 0 where
  nothing nobody no_primary no_secondary : Missing
  named_twice : Text → Missing

-- Simple case folding: ASCII here, and by `wide` beyond it.
unfoldable pub fold : (ℕ → ℕ) → ℕ → ℕ
fold wide c = if leb 65 c && leb c 90 then c + 32 else (if ltb c 128 then c else wide c)

-- strings.EqualFold.
unfoldable pub equal_fold : (ℕ → ℕ) → Text → Text → Bool
unfolding fold
equal_fold wide [] [] = true
equal_fold wide [] (d ∷ t) = false
equal_fold wide (c ∷ s) [] = false
equal_fold wide (c ∷ s) (d ∷ t) = fold wide c == fold wide d && equal_fold wide s t

-- A Deployment's annotations; "" where there is none.
abbrev pub Annotations : Type 0
Annotations = String → Text

unfoldable pub judge_caregivers : (ℕ → ℕ) → Text → Text → Bool × Missing
unfolding equal_fold
judge_caregivers wide p s =
    if text_eq p [] && text_eq s []
    then (false, nobody)
    else (if text_eq p []
        then (false, no_primary)
        else (if text_eq s []
            then (false, no_secondary)
            else (if equal_fold wide p s then (false, named_twice p) else (true, nothing))))

abbrev pub primary_of : Annotations → Text
primary_of a = trim_space (a "kyvernetria.io/primary-caregiver")

abbrev pub secondary_of : Annotations → Text
secondary_of a = trim_space (a "kyvernetria.io/secondary-caregiver")

unfoldable pub caregivers_of : (ℕ → ℕ) → Annotations → Caregivers × (Bool × Missing)
unfolding judge_caregivers
caregivers_of wide a = (
  record { primary = primary_of a; secondary = secondary_of a },
  judge_caregivers wide (primary_of a) (secondary_of a),
)

-- One newborn workload of a namespace: its pod selector and the class that its new pods get.
pub record NewbornEntry : Type 0 where
  pub selector : Text
  pub priority_class : String

unfoldable pub insert_entry : NewbornEntry → List NewbornEntry → List NewbornEntry
unfolding text_ltb
insert_entry e [] = e ∷ []
insert_entry e (x ∷ xs) =
    if text_ltb x.selector e.selector then x ∷ insert_entry e xs else e ∷ x ∷ xs

unfoldable pub sort_entries : List NewbornEntry → List NewbornEntry
unfolding insert_entry
sort_entries [] = []
sort_entries (e ∷ es) = insert_entry e (sort_entries es)

-- The namespace annotation: absent or blank, the JSON of entries, or anything else.
pub data Newborns : Type 0 where
  unset : Newborns
  listed : List NewbornEntry → Newborns
  garbled : Newborns

unfoldable pub encode_newborns : List NewbornEntry → Newborns
unfolding sort_entries
encode_newborns [] = unset
encode_newborns (e ∷ es) = listed (sort_entries (e ∷ es))

-- `none` is the error of an annotation that is no such JSON.
unfoldable pub decode_newborns : Newborns → Option (List NewbornEntry)
decode_newborns unset = some []
decode_newborns (listed es) = some es
decode_newborns garbled = none
