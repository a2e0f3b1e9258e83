-- ===== src/Gestation/Memory/Put.antt =====
-- Put: the memory afterwards.
use kyvernetria.Text.Table.{
  delete_key, delete_key-All, delete_key-Unique, has_key-value_at, length-delete_key,
  length-set_value, other_key, set_value, set_value-Unique, value_at, value_at-delete_key,
  value_at-set_value,
}
use kyvernetria.Text.{Text, text_eq, text_eq_iff}
use kyvernetria.Prelude.Sort.{sort_by, sort_by-Sorted, any-sort_by, All-sort_by, All-sort_by_inv}
use kyvernetria.Gestation.Memory.{
  Record, key_of, Data, born_before, goes_before, let_go, Json, decoded, records, prune, put_at,
  put, bounded,
}
use kyvernetria.Gestation.Memory.Pruning.{goes_before_asym, goes_before_trans}
use kyvernetria.Gestation.Memory.Bound.{
  Stored, let_go-first, Holds, Tidy, Orderly, any-decoded, Stored-decoded, held-decoded,
}
use kyvernetria.Prelude.{
  ℕ, suc, ◌≤◌, ◌≡◌, refl, sym, ap, subst, ◌∙◌, ◌⊎◌, inl, inr, Bool, true, false, not, Option, none,
  some, arith, Bool-cases, All, [], ◌∷◌, length, leb, le→leb, leb→le,
}

module _ (json : Json) (most : ℕ) (some_room : 1 ≤ most) where
  -- The record that prune lets go of, if the memory is one too large.
  abbrev pub Pruned : Text → Data → Data → Type 0
  Pruned kept m after =
      (r : Record) × (after ≡ delete_key (key_of r) m)
      × (text_eq (key_of r) kept ≡ false)
      × Stored json m r
      × All (Holds json (λ s. (key_of s ≡ kept) ⊎ (goes_before s r ≡ false))) m

  leb-full : (n : ℕ) → n ≡ suc most → leb n most ≡ false
  leb-full n h = ground (arith, h)

  prune-full :
      (kept : Text) (m : Data)
      → length m ≡ suc most
      → prune json most m kept ≡ let_go most kept (sort_by goes_before (records json m)) m
  unfolding prune
  prune-full kept m full = rw (leb-full (length m) full, prune) refl

  prune-small : (kept : Text) (m : Data) → length m ≤ most → prune json most m kept ≡ m
  unfolding prune
  prune-small kept m h = rw (le→leb (length m) most h, prune) refl

  prune-Pruned :
      (kept : Text) (m : Data)
      → Orderly json m
      → length m ≡ suc most
      → Pruned kept m (prune json most m kept)
  unfolding prune records
  prune-Pruned kept m (u, tidy) full =
      let order = sort_by goes_before (sort_by born_before (decoded json m)) in
      let other =
        any-sort_by goes_before (λ (r : Record). not (text_eq (key_of r) kept))
          (sort_by born_before (decoded json m))
        ∙ any-sort_by born_before (λ (r : Record). not (text_eq (key_of r) kept)) (decoded json m)
        ∙ any-decoded json kept m tidy
        ∙ other_key kept m u (omega (arith, full, some_room)) in
      let known = All-sort_by goes_before (Stored json m) (sort_by born_before (decoded json m)) (
        All-sort_by born_before (Stored json m) (decoded json m)
          (Stored-decoded json m m u tidy (λ k raw e. e))) in
      let (r, e, apart, held, first) = let_go-first json most kept order m full other known (
        sort_by-Sorted goes_before goes_before_asym goes_before_trans
          (sort_by born_before (decoded json m))) in
      let Last = λ (s : Record). (key_of s ≡ kept) ⊎ (goes_before s r ≡ false) in
      (
        r,
        prune-full kept m full ∙ e,
        apart,
        held,
        held-decoded json Last m tidy (
            All-sort_by_inv born_before Last (decoded json m)
              (All-sort_by_inv goes_before Last (sort_by born_before (decoded json m)) first)),
      )

  -- The three ways in which Put ends.
  abbrev pub PutResult : Text → Text → Data → Data → Type 0
  PutResult key raw m after =
      ((after ≡ m) × (value_at key m ≡ some raw))
      ⊎ (((after ≡ set_value key raw m) × (length (set_value key raw m) ≤ most))
          ⊎ ((length (set_value key raw m) ≡ suc most) × Pruned key (set_value key raw m) after))

  prune-PutResult :
      (key raw : Text) (m : Data)
      → Orderly json (set_value key raw m)
      → length m ≤ most
      → PutResult key raw m (prune json most (set_value key raw m) key)
  prune-PutResult key raw m o small = elim (Bool-cases (leb (length (set_value key raw m)) most)) [
    | inl fits ↦
        let le = leb→le (length (set_value key raw m)) most fits in
        inr (inl (prune-small key (set_value key raw m) le, le))
    | inr over ↦
        let full =
          full_size (length (set_value key raw m)) (length m) over (length-set_value key raw m)
            small in
        inr (inr (full, prune-Pruned key (set_value key raw m) o full))
  ]
    where
      full_size : (n k : ℕ) → leb n most ≡ false → n ≤ suc k → k ≤ most → n ≡ suc most
      full_size n k over le small = ground (arith, over, le, small)

  put_at-PutResult :
      (key raw : Text) (m : Data)
      → Orderly json (set_value key raw m)
      → length m ≤ most
      → (found : Option Text) → value_at key m ≡ found
      → PutResult key raw m (put_at json most key raw m found).0
  put_at-PutResult key raw m o small none e = prune-PutResult key raw m o small
  put_at-PutResult key raw m o small (some old) e = elim (Bool-cases (text_eq old raw)) [
    | inl same ↦ rw (same, put_at) (inl (refl, e ∙ ap some ((text_eq_iff old raw).0 same)))
    | inr other ↦ rw (other, put_at) (prune-PutResult key raw m o small)
  ]

  module _ (law : (r : Record) → json.unmarshal (json.marshal r) ≡ some r) where
    set_value-Tidy :
        (r : Record) (m : Data)
        → text_eq r.name [] ≡ false
        → All (Tidy json) m
        → All (Tidy json) (set_value (key_of r) (json.marshal r) m)
    unfolding set_value
    set_value-Tidy r [] n h = ((r, law r, n, refl, tt), tt)
    set_value-Tidy r ((j, old) ∷ m) n h =
        tidy_at (text_eq j (key_of r)) refl (set_value-Tidy r m n h.1)
      where
        tidy_at :
            (b : Bool)
            → text_eq j (key_of r) ≡ b
            → All (Tidy json) (set_value (key_of r) (json.marshal r) m)
            → All (Tidy json) (elim b [
              | true ↦ (j, json.marshal r) ∷ m
              | false ↦ (j, old) ∷ set_value (key_of r) (json.marshal r) m
            ])
        tidy_at true e k = ((r, law r, n, sym ((text_eq_iff j (key_of r)).0 e), tt), h.1)
        tidy_at false e k = (h.0, k)

    pub put-PutResult :
        (r : Record) (m : Data)
        → text_eq (bounded r).name [] ≡ false
        → Orderly json m
        → length m ≤ most
        → PutResult (key_of (bounded r)) (json.marshal (bounded r)) m (put json most m r).0
    unfolding put
    put-PutResult r m n (u, tidy) small =
        let b = bounded r in
        put_at-PutResult (key_of b) (json.marshal b) m
          (set_value-Unique (key_of b) (json.marshal b) m u, set_value-Tidy b m n tidy) small
          (value_at (key_of b) m) refl

    -- After Put the memory is in order and within its bound, and holds the new record as it was bounded.
    pub put-Orderly :
        (r : Record) (m : Data)
        → text_eq (bounded r).name [] ≡ false
        → Orderly json m
        → length m ≤ most
        → Orderly json (put json most m r).0
          × (length (put json most m r).0 ≤ most)
          × (value_at (key_of (bounded r)) (put json most m r).0 ≡ some (json.marshal (bounded r)))
    put-Orderly r m n (u, tidy) small =
        let b = bounded r in
        let m1 = set_value (key_of b) (json.marshal b) m in
        let u1 = set_value-Unique (key_of b) (json.marshal b) m u in
        let t1 = set_value-Tidy b m n tidy in
        let stored = value_at-set_value (key_of b) (json.marshal b) m in
        let Good = λ (a : Data).
          Orderly json a × (length a ≤ most) × (value_at (key_of b) a ≡ some (json.marshal b)) in
        elim (put-PutResult r m n (u, tidy) small) [
          | inl (same, held) ↦ subst Good (sym same) ((u, tidy), small, held)
          | inr (inl (new, fits)) ↦ subst Good (sym new) ((u1, t1), fits, stored)
          | inr (inr (full, (x, gone, apart, (raw, at, _), _))) ↦ subst Good (sym gone) (
            (delete_key-Unique (key_of x) m1 u1, delete_key-All (Tidy json) (key_of x) m1 t1),
            omega (
              arith,
              full,
              length-delete_key (key_of x) m1 (has_key-value_at (key_of x) raw m1 at),
            ),
            value_at-delete_key (key_of b) (key_of x) m1 apart ∙ stored,
          )
        ]
