-- ===== src/Text/Table.antt =====
-- Go's maps from strings to strings, as lists of entries in the order in which their keys were added.
use kyvernetria.Text.{Text, text_eq, text_eq_refl, text_eq_iff}
use kyvernetria.Prelude.{
  suc, ◌≤◌, ◌<◌, ◌≡◌, refl, ap, inl, inr, Bool, true, false, not, ◌||◌, Option, none, some, arith,
  Bool-cases, All, All-keep, List, [], ◌∷◌, any, keep, length,
}

abbrev pub Table : Type 0
Table = List (Text × Text)

unfoldable pub value_at : Text → Table → Option Text
value_at key [] = none
value_at key ((k, raw) ∷ m) = elim (text_eq k key) [ true ↦ some raw | false ↦ value_at key m ]

unfoldable pub set_value : Text → Text → Table → Table
set_value key raw [] = (key, raw) ∷ []
set_value key raw ((k, old) ∷ m) = elim (text_eq k key) [
  | true ↦ (k, raw) ∷ m
  | false ↦ (k, old) ∷ set_value key raw m
]

unfoldable pub delete_key : Text → Table → Table
delete_key key m = keep (λ (e : Text × Text). not (text_eq e.0 key)) m

abbrev pub has_key : Text → Table → Bool
has_key key m = any (λ (e : Text × Text). text_eq e.0 key) m

-- No key twice.
abbrev pub Unique : Table → Type 0
Unique [] = Unit
Unique ((k, raw) ∷ m) = (has_key k m ≡ false) × Unique m

pub has_key-set_value :
    (k key raw : Text) (m : Table)
    → has_key k (set_value key raw m) ≡ (text_eq key k || has_key k m)
unfolding set_value
has_key-set_value k key raw [] = refl
has_key-set_value k key raw ((j, old) ∷ m) = elim (Bool-cases (text_eq j key)) [
  | inl same ↦ ground (arith, same, ap (λ (x : Text). text_eq x k) ((text_eq_iff j key).0 same))
  | inr other ↦ ground (arith, other, has_key-set_value k key raw m)
]

pub set_value-Unique : (key raw : Text) (m : Table) → Unique m → Unique (set_value key raw m)
unfolding set_value
set_value-Unique key raw [] h = (refl, tt)
set_value-Unique key raw ((j, old) ∷ m) h = elim (Bool-cases (text_eq j key)) [
  | inl same ↦ ground (arith, same, h)
  | inr other ↦ ground (
    arith,
    other,
    h,
    set_value-Unique key raw m h.1,
    has_key-set_value j key raw m,
    (text_eq_iff j key).0,
    (text_eq_iff key j).0,
    (text_eq_iff j key).1,
  )
]

pub length-set_value : (key raw : Text) (m : Table) → length (set_value key raw m) ≤ suc (length m)
unfolding set_value
length-set_value key raw [] = omega arith
length-set_value key raw ((j, old) ∷ m) = ground (arith, length-set_value key raw m)

pub value_at-set_value :
    (key raw : Text) (m : Table) → value_at key (set_value key raw m) ≡ some raw
unfolding value_at set_value
value_at-set_value key raw [] = ground (arith, text_eq_refl key)
value_at-set_value key raw ((j, old) ∷ m) = ground (arith, value_at-set_value key raw m)

pub value_at-delete_key :
    (key k : Text) (m : Table)
    → text_eq k key ≡ false
    → value_at key (delete_key k m) ≡ value_at key m
unfolding value_at delete_key
value_at-delete_key key k [] h = refl
value_at-delete_key key k ((j, raw) ∷ m) h = elim (Bool-cases (text_eq j k)) [
  | inl same ↦ ground (
    arith,
    same,
    h,
    value_at-delete_key key k m h,
    ap (λ (x : Text). text_eq x key) ((text_eq_iff j k).0 same),
  )
  | inr other ↦ ground (arith, other, value_at-delete_key key k m h)
]

length-delete_key_le : (k : Text) (m : Table) → length (delete_key k m) ≤ length m
unfolding delete_key
length-delete_key_le k [] = omega arith
length-delete_key_le k ((j, raw) ∷ m) = ground (arith, length-delete_key_le k m)

pub length-delete_key :
    (k : Text) (m : Table) → has_key k m ≡ true → length (delete_key k m) < length m
unfolding delete_key
length-delete_key k [] h = absurd (cc h)
length-delete_key k ((j, raw) ∷ m) h =
    ground (arith, h, length-delete_key k m, length-delete_key_le k m)

has_key-delete_key :
    (key k : Text) (m : Table) → has_key key m ≡ false → has_key key (delete_key k m) ≡ false
unfolding delete_key
has_key-delete_key key k [] h = refl
has_key-delete_key key k ((j, raw) ∷ m) h = ground (arith, h, has_key-delete_key key k m)

pub has_key-delete_other :
    (key k : Text) (m : Table)
    → text_eq k key ≡ false
    → has_key key (delete_key k m) ≡ has_key key m
unfolding delete_key
has_key-delete_other key k [] h = refl
has_key-delete_other key k ((j, raw) ∷ m) h = elim (Bool-cases (text_eq j k)) [
  | inl same ↦ ground (
    arith,
    same,
    h,
    has_key-delete_other key k m h,
    ap (λ (x : Text). text_eq x key) ((text_eq_iff j k).0 same),
  )
  | inr other ↦ ground (arith, other, has_key-delete_other key k m h)
]

pub delete_key-Unique : (k : Text) (m : Table) → Unique m → Unique (delete_key k m)
unfolding delete_key
delete_key-Unique k [] h = tt
delete_key-Unique k ((j, raw) ∷ m) h =
    ground (arith, h, delete_key-Unique k m h.1, has_key-delete_key j k m h.0)

pub has_key-value_at : (k raw : Text) (m : Table) → value_at k m ≡ some raw → has_key k m ≡ true
unfolding value_at
has_key-value_at k raw [] h = absurd (cc h)
has_key-value_at k raw ((j, v) ∷ m) h = ground (arith, h, has_key-value_at k raw m)

pub value_at-first : (k raw : Text) (m : Table) → value_at k ((k, raw) ∷ m) ≡ some raw
unfolding value_at
value_at-first k raw m = rw (text_eq_refl k, value_at) refl

pub value_at-later :
    (j k raw v : Text) (m : Table)
    → has_key k m ≡ false
    → value_at j m ≡ some v
    → value_at j ((k, raw) ∷ m) ≡ some v
unfolding value_at
value_at-later j k raw v m u h = elim (Bool-cases (text_eq k j)) [
  | inl same ↦
      absurd (
        cc (u, has_key-value_at j v m h, ap (λ (x : Text). has_key x m) ((text_eq_iff k j).0 same)))
  | inr other ↦ rw (other, value_at) h
]

pub value_at-set_other :
    (k key raw : Text) (m : Table)
    → text_eq key k ≡ false
    → value_at k (set_value key raw m) ≡ value_at k m
unfolding value_at set_value
value_at-set_other k key raw [] h = ground (arith, h)
value_at-set_other k key raw ((j, old) ∷ m) h = elim (Bool-cases (text_eq j key)) [
  | inl same ↦ ground (arith, same, h, ap (λ (x : Text). text_eq x k) ((text_eq_iff j key).0 same))
  | inr other ↦ ground (arith, other, value_at-set_other k key raw m h)
]

pub delete_key-All {κ} :
    (P : Text × Text → Type κ) (k : Text) (m : Table) → All P m → All P (delete_key k m)
unfolding delete_key
delete_key-All P k m h = All-keep P (λ (e : Text × Text). not (text_eq e.0 k)) m h

-- Of two entries one at least has another key.
pub other_key :
    (kept : Text) (m : Table)
    → Unique m
    → 2 ≤ length m
    → any (λ (e : Text × Text). not (text_eq e.0 kept)) m ≡ true
other_key kept [] u h = absurd (omega (arith, h))
other_key kept (e ∷ []) u h = absurd (omega (arith, h))
other_key kept ((j, a) ∷ (k, b) ∷ m) u h =
    ground (arith, u, (text_eq_iff j kept).0, (text_eq_iff k kept).0, (text_eq_iff k j).1)

pub value_at-deleted : (k : Text) (m : Table) → value_at k (delete_key k m) ≡ none
unfolding value_at delete_key
value_at-deleted k [] = refl
value_at-deleted k ((j, raw) ∷ m) = ground (arith, value_at-deleted k m)

pub value_at-absent : (k : Text) (m : Table) → has_key k m ≡ false → value_at k m ≡ none
unfolding value_at
value_at-absent k [] h = refl
value_at-absent k ((j, raw) ∷ m) h = ground (arith, h, value_at-absent k m)

pub value_at-passed :
    (k j raw : Text) (m : Table) → text_eq j k ≡ false → value_at k ((j, raw) ∷ m) ≡ value_at k m
unfolding value_at
value_at-passed k j raw m h = rw (h, value_at) refl
