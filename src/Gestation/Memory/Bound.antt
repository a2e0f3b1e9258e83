-- ===== src/Gestation/Memory/Bound.antt =====
-- Put keeps the memory within its bound, keeps the new record, and lets go of the first in prune's order.
use kyvernetria.Text.Table.{
  Unique, delete_key, has_key-value_at, length-delete_key, value_at, value_at-first, value_at-later,
}
use kyvernetria.Text.{Text, text_eq, text_eq_iff}
use kyvernetria.Prelude.Sort.{Sorted}
use kyvernetria.Gestation.Memory.{
  Record, key_of, Data, goes_before, let_go, Json, decoded, named_or_skip,
}
use kyvernetria.Gestation.Memory.Pruning.{goes_before_asym}
use kyvernetria.Prelude.{
  ℕ, suc, ◌≤◌, ◌≡◌, refl, sym, ap, subst, ◌∙◌, ◌⊎◌, inl, inr, true, false, not, Option, some, arith,
  Bool-cases, All, All-mono, List, [], ◌∷◌, any, length, le→leb,
}

-- The memory holds the record under its key.
abbrev pub Stored : Json → Data → Record → Type 0
Stored json m r = (raw : Text) × (value_at (key_of r) m ≡ some raw) × (json.unmarshal raw ≡ some r)

-- What the loop deletes: the first record of another key, before which no other goes.
abbrev pub LetGo : Json → Text → List Record → Data → Data → Type 0
LetGo json kept rs m after =
    (r : Record) × (after ≡ delete_key (key_of r) m)
    × (text_eq (key_of r) kept ≡ false)
    × Stored json m r
    × All (λ s. (key_of s ≡ kept) ⊎ (goes_before s r ≡ false)) rs

pub let_go-small :
    (most : ℕ) (kept : Text) (rs : List Record) (m : Data)
    → length m ≤ most
    → let_go most kept rs m ≡ m
unfolding let_go
let_go-small most kept [] m h = refl
let_go-small most kept (r ∷ rs) m h = rw (le→leb (length m) most h, let_go) refl

goes_before_irrefl : (r : Record) → goes_before r r ≡ false
goes_before_irrefl r = elim (Bool-cases (goes_before r r)) [
  | inl e ↦ goes_before_asym r r e
  | inr e ↦ e
]

pub let_go-first :
    (json : Json) (most : ℕ) (kept : Text) (rs : List Record) (m : Data)
    → length m ≡ suc most
    → any (λ (r : Record). not (text_eq (key_of r) kept)) rs ≡ true
    → All (Stored json m) rs
    → Sorted goes_before rs
    → LetGo json kept rs m (let_go most kept rs m)
unfolding let_go
let_go-first json most kept [] m full other known sorted = absurd (cc other)
let_go-first json most kept (r ∷ rs) m full other known sorted =
    elim (Bool-cases (text_eq (key_of r) kept)) [
      | inl same ↦
          let (x, e, k, h, first) =
            let_go-first json most kept rs m full (ground (arith, same, other)) known.1 sorted.1 in
          (
            x,
            ground (arith, full, same) ∙ e,
            k,
            h,
            (inl ((text_eq_iff (key_of r) kept).0 same), first),
          )
      | inr apart ↦ (
        r,
        ground (
          arith,
          full,
          apart,
          let_go-small most kept rs (delete_key (key_of r) m) (
              omega (
                arith,
                full,
                length-delete_key (key_of r) m (has_key-value_at (key_of r) known.0.0 m known.0.1),
              )),
        ),
        apart,
        known.0,
        (
          inr (goes_before_irrefl r),
          All-mono (λ s. goes_before s r ≡ false)
              (λ s. (key_of s ≡ kept) ⊎ (goes_before s r ≡ false)) rs (λ s h. inr h) sorted.0,
        ),
      )
    ]

-- What the memory holds of a service.
abbrev pub Holds : Json → (Record → Type 0) → Text × Text → Type 0
Holds json P e =
    (r : Record) × (json.unmarshal e.1 ≡ some r)
    × (text_eq r.name [] ≡ false)
    × (key_of r ≡ e.0)
    × P r

abbrev pub Tidy : Json → Text × Text → Type 0
Tidy json = Holds json (λ r. Unit)

abbrev pub Orderly : Json → Data → Type 0
Orderly json m = Unique m × All (Tidy json) m

module _ (json : Json) where
  pub decoded-cons :
      (k raw : Text) (m : Data) (r : Record)
      → json.unmarshal raw ≡ some r
      → text_eq r.name [] ≡ false
      → decoded json ((k, raw) ∷ m) ≡ r ∷ decoded json m
  unfolding decoded
  decoded-cons k raw m r e h =
      ap (λ (o : Option Record). named_or_skip json o (decoded json m)) e
      ∙ rw (h, named_or_skip) refl

  pub any-decoded :
      (kept : Text) (m : Data)
      → All (Tidy json) m
      → any (λ (r : Record). not (text_eq (key_of r) kept)) (decoded json m)
        ≡ any (λ (e : Text × Text). not (text_eq e.0 kept)) m
  any-decoded kept [] h = unfold decoded in refl
  any-decoded kept ((k, raw) ∷ m) ((r, e, n, key, _), hs) =
      rw (decoded-cons k raw m r e n, key, any-decoded kept m hs) refl

  pub Stored-decoded :
      (m n : Data)
      → Unique m
      → All (Tidy json) m
      → ((k raw : Text) → value_at k m ≡ some raw → value_at k n ≡ some raw)
      → All (Stored json n) (decoded json m)
  Stored-decoded [] n u h f = unfold decoded in tt
  Stored-decoded ((k, raw) ∷ m) n u ((r, e, nm, key, _), hs) f =
      subst (All (Stored json n)) (sym (decoded-cons k raw m r e nm)) (
        (
          raw,
          f (key_of r) raw (
              subst (λ (j : Text). value_at j ((k, raw) ∷ m) ≡ some raw) (sym key)
                (value_at-first k raw m)),
          e,
        ),
        Stored-decoded m n u.1 hs (λ j v g. f j v (value_at-later j k raw v m u.0 g)),
      )

  pub held-decoded :
      (P : Record → Type 0) (m : Data)
      → All (Tidy json) m
      → All P (decoded json m)
      → All (Holds json P) m
  held-decoded P [] h a = tt
  held-decoded P ((k, raw) ∷ m) ((r, e, n, key, _), hs) a =
      let b = subst (All P) (decoded-cons k raw m r e n) a in
      ((r, e, n, key, b.0), held-decoded P m hs b.1)
