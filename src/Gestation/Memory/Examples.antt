-- ===== src/Gestation/Memory/Examples.antt =====
-- The theorems on the memory at two services.
use kyvernetria.Text.Table.{value_at}
use kyvernetria.Text.{Text, codes}
use kyvernetria.Gestation.Memory.{Record, Data, key_of, bounded, put, trim}
use kyvernetria.Gestation.Memory.Bound.{Holds, Orderly}
use kyvernetria.Gestation.Memory.Codec.{lengths, lengths_law}
use kyvernetria.Gestation.Memory.Put.{put-Orderly}
use kyvernetria.Gestation.Memory.Loss.{GoesFirst, put-lets_go}
use kyvernetria.Prelude.{◌≤◌, ◌≡◌, ◌⊎◌, refl, some, [], ◌∷◌, ◌++◌, length, String, arith, All}

-- A record of a service of the namespace shop.
abbrev record_of : String → String → String → Record
record_of name born left = record {
  scope = codes "shop";
  name = codes name;
  uid = codes "u1";
  born = codes born;
  left = codes left;
  owners = codes "anna" ∷ codes "bob" ∷ [];
  dependencies = [];
  config_digest = [];
}

abbrev entry_of : Record → Text × Text
entry_of r = (codes "shop" ++ 46 ∷ r.name ++ 46 ∷ codes "u1", lengths.marshal r)

-- A memory of two records, of which one has departed.
abbrev two_records : Data
two_records =
    entry_of (record_of "web" "2026-01-01" "")
    ∷ entry_of (record_of "api" "2026-01-02" "2026-02-01")
    ∷ []

two_records-Orderly : Orderly lengths two_records
unfolding key_of
two_records-Orderly = (
  (refl, (refl, tt)),
  (
    (record_of "web" "2026-01-01" "", lengths_law _, refl, refl, tt),
    ((record_of "api" "2026-01-02" "2026-02-01", lengths_law _, refl, refl, tt), tt),
  ),
)

abbrev newborn : Record
newborn = record_of "new" "2026-03-01" ""

put-Orderly_example :
    Orderly lengths (put lengths 2 two_records newborn).0
    × (length (put lengths 2 two_records newborn).0 ≤ 2)
    × (value_at (key_of (bounded newborn)) (put lengths 2 two_records newborn).0
        ≡ some (lengths.marshal (bounded newborn)))
unfolding bounded trim
put-Orderly_example =
    put-Orderly lengths 2 (omega arith) lengths_law newborn two_records refl two_records-Orderly
      (omega arith)

put-lets_go_example :
    All
      (Holds lengths (λ s.
        (key_of s ≡ key_of (bounded newborn))
        ⊎ GoesFirst (record_of "api" "2026-01-02" "2026-02-01") s))
      (put lengths 2 two_records newborn).0
unfolding put bounded trim key_of value_at
put-lets_go_example =
    put-lets_go lengths 2 (omega arith) lengths_law newborn
      (record_of "api" "2026-01-02" "2026-02-01") two_records refl two_records-Orderly (omega arith)
      (lengths.marshal (record_of "api" "2026-01-02" "2026-02-01"), refl, lengths_law _) refl
