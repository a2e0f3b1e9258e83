-- ===== src/Gestation/Memory.antt =====
-- kubernetes/overlay/pkg/kyvernetria/gestation/memory.go: the records of the services that were born, and
-- how the memory stays within its bound.
pub mod Pruning
pub mod Bound
pub mod Put
pub mod Loss
pub mod Codec
mod Examples
use mathlib.Core.List.{reverse}
use kyvernetria.Text.{Text, text_eq, text_ltb}
use kyvernetria.Text.Table.{value_at, set_value, delete_key}
use kyvernetria.Text.Fields.{trim_space}
use kyvernetria.Prelude.Sort.{sort_by}
use kyvernetria.Prelude.{
  ℕ, zero, suc, ◌-◌, Bool, true, false, not, ◌&&◌, ◌||◌, List, [], ◌∷◌, ◌++◌, Option, none, some,
  any, keep, take, length, ltb, leb, if◌then◌else◌,
}

-- MaxRecords, maxListed and maxField.
abbrev pub max_records : ℕ
max_records = 256

abbrev pub max_listed : ℕ
max_listed = 16

abbrev pub max_field : ℕ
max_field = 253

pub record Record : Type 0 where
  pub scope : Text
  pub name : Text
  pub uid : Text
  pub born : Text
  pub left : Text
  pub owners : List Text
  pub dependencies : List Text
  pub config_digest : Text

-- The bytes of a code point in UTF-8.
abbrev pub utf8_width : ℕ → ℕ
utf8_width c = if ltb c 128 then 1 else (if ltb c 2048 then 2 else (if ltb c 65536 then 3 else 4))

-- A byte of a code point that is cut is written as U+FFFD by encoding/json.
abbrev pub broken : ℕ → Text
broken zero = []
broken (suc n) = 65533 ∷ broken n

-- s[:n], for a number of bytes.
unfoldable pub first_bytes : ℕ → Text → Text
first_bytes n [] = []
first_bytes n (c ∷ s) = elim (leb (utf8_width c) n) [
  | true ↦ c ∷ first_bytes (n - utf8_width c) s
  | false ↦ broken n
]

-- Key; 46 is the dot.
unfoldable pub key_of : Record → Text
unfolding first_bytes
key_of r = r.scope ++ 46 ∷ r.name ++ 46 ∷ first_bytes 8 r.uid

unfoldable pub departed : Record → Bool
departed r = not (text_eq r.left [])

-- `trim`, for at most 253 bytes.
unfoldable pub trim : Text → Text
unfolding first_bytes
trim s = first_bytes max_field s

-- The loop of `list`; `seen` is what it has taken, the last first.
unfoldable pub distinct : List Text → List Text → List Text
unfolding trim trim_space
distinct seen [] = reverse seen
distinct seen (s ∷ ss) =
    elim (text_eq (trim (trim_space s)) [] || any (text_eq (trim (trim_space s))) seen) [
      | true ↦ distinct seen ss
      | false ↦ distinct (trim (trim_space s) ∷ seen) ss
    ]

unfoldable pub bounded_list : List Text → List Text
unfolding distinct sort_by text_ltb
bounded_list ss = take max_listed (sort_by text_ltb (distinct [] ss))

-- Bounded.
unfoldable pub bounded : Record → Record
unfolding trim bounded_list
bounded r = record r {
  scope = trim r.scope;
  name = trim r.name;
  uid = trim r.uid;
  owners = bounded_list r.owners;
  dependencies = bounded_list r.dependencies;
}

-- encoding/json on records.
pub record Json : Type 0 where
  pub marshal : Record → Text
  pub unmarshal : Text → Option Record

-- The data of the ConfigMap.
abbrev pub Data : Type 0
Data = List (Text × Text)

-- The order of Records: by birth, then by key.
unfoldable pub born_before : Record → Record → Bool
unfolding text_ltb key_of
born_before a b =
    if text_eq a.born b.born then text_ltb (key_of a) (key_of b) else text_ltb a.born b.born

-- The order of prune.
unfoldable pub goes_before : Record → Record → Bool
unfolding departed text_ltb
goes_before a b = elim (departed a) [
  | true ↦ elim (departed b) [ true ↦ text_ltb a.left b.left | false ↦ true ]
  | false ↦ elim (departed b) [ true ↦ false | false ↦ text_ltb a.born b.born ]
]

-- The loop of prune over the records in their order, with `most` for MaxRecords.
unfoldable pub let_go : ℕ → Text → List Record → Data → Data
unfolding delete_key key_of
let_go most kept [] m = m
let_go most kept (r ∷ rs) m = elim (leb (length m) most) [
  | true ↦ m
  | false ↦ elim (text_eq (key_of r) kept) [
    | true ↦ let_go most kept rs m
    | false ↦ let_go most kept rs (delete_key (key_of r) m)
  ]
]

module _ (json : Json) where
  abbrev pub named_or_skip : Option Record → List Record → List Record
  named_or_skip none rs = rs
  named_or_skip (some r) rs = elim (text_eq r.name []) [ true ↦ rs | false ↦ r ∷ rs ]

  unfoldable pub decoded : Data → List Record
  decoded [] = []
  decoded ((k, raw) ∷ m) = named_or_skip (json.unmarshal raw) (decoded m)

  -- Records.
  unfoldable pub records : Data → List Record
  unfolding decoded sort_by born_before
  records m = sort_by born_before (decoded m)

  unfoldable pub prune : ℕ → Data → Text → Data
  unfolding records let_go sort_by goes_before
  prune most m kept = elim (leb (length m) most) [
    | true ↦ m
    | false ↦ let_go most kept (sort_by goes_before (records m)) m
  ]

  abbrev pub put_at : ℕ → Text → Text → Data → Option Text → Data × Bool
  put_at most key raw m none = (prune most (set_value key raw m) key, true)
  put_at most key raw m (some old) = elim (text_eq old raw) [
    | true ↦ (m, false)
    | false ↦ (prune most (set_value key raw m) key, true)
  ]

  -- Put: the memory afterwards, and whether it changed. The code's `most` is max_records.
  unfoldable pub put : ℕ → Data → Record → Data × Bool
  unfolding bounded key_of value_at set_value prune
  put most m r =
      put_at most (key_of (bounded r)) (json.marshal (bounded r)) m
        (value_at (key_of (bounded r)) m)
