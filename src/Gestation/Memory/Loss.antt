-- ===== src/Gestation/Memory/Loss.antt =====
-- Which record a full memory lets go of.
use kyvernetria.Text.Table.{
  delete_key-All, has_key, has_key-delete_other, has_key-set_value, has_key-value_at, set_value,
  value_at, value_at-set_other,
}
use kyvernetria.Text.{Text, text_eq, text_eq_iff, text_ltb}
use kyvernetria.Gestation.Memory.{Record, key_of, Data, goes_before, departed, Json, put, bounded}
use kyvernetria.Gestation.Memory.Bound.{Stored, Holds, Orderly}
use kyvernetria.Gestation.Memory.Put.{put-PutResult}
use kyvernetria.Prelude.{
  ℕ, ◌≤◌, ◌≡◌, ◌≢◌, refl, sym, ap, subst, ◌∙◌, ◌⊎◌, inl, inr, Bool, true, false, ◌||◌, some, arith,
  Bool-cases, All, All-mono, [], ◌∷◌, length,
}

-- x may go before s: if s has departed, so has x, and no later; if x still lives, so does s, and x is not
-- born later.
abbrev pub GoesFirst : Record → Record → Type 0
GoesFirst x s =
    (s.left ≢ [] → (x.left ≢ []) × (text_ltb s.left x.left ≡ false))
    × (x.left ≡ [] → (s.left ≡ []) × (text_ltb s.born x.born ≡ false))

text_eq_nil : (t : Text) → (t ≡ []) ⊎ (text_eq t [] ≡ false)
text_eq_nil [] = inl refl
text_eq_nil (c ∷ t) = inr refl

goes_before-GoesFirst : (s x : Record) → goes_before s x ≡ false → GoesFirst x s
unfolding goes_before departed
goes_before-GoesFirst s x h = elim (text_eq_nil s.left) [
  | inl s_lives ↦ elim (text_eq_nil x.left) [
    | inl x_lives ↦ (
      λ n. absurd (n s_lives),
      λ e. (
        s_lives,
        ground (arith, h, ap (λ t. text_eq t []) s_lives, ap (λ t. text_eq t []) x_lives),
      ),
    )
    | inr x_left ↦ (λ n. absurd (n s_lives), λ e. absurd (cc (x_left, ap (λ t. text_eq t []) e)))
  ]
  | inr s_left ↦ elim (text_eq_nil x.left) [
    | inl x_lives ↦ absurd (ground (arith, h, s_left, ap (λ t. text_eq t []) x_lives))
    | inr x_left ↦ (
      λ n. (λ e. cc (x_left, ap (λ t. text_eq t []) e), ground (arith, h, s_left, x_left)),
      λ e. absurd (cc (x_left, ap (λ t. text_eq t []) e)),
    )
  ]
]

module _ (json : Json) (most : ℕ) (some_room : 1 ≤ most)
    (law : (r : Record) → json.unmarshal (json.marshal r) ≡ some r) where
  or_true : (a b : Bool) → b ≡ true → (a || b) ≡ true
  or_true a b h = ground arith

  apart_from : (key k j : Text) → k ≡ j → text_eq k key ≡ false → text_eq key j ≡ false
  apart_from key k j e h = elim (Bool-cases (text_eq key j)) [
    | inr other ↦ other
    | inl same ↦ absurd (cc (h, (text_eq_iff k key).1 (e ∙ sym ((text_eq_iff key j).0 same))))
  ]

  -- Two records under one key are one.
  Stored-same :
      (m : Data) (x y : Record) → key_of x ≡ key_of y → Stored json m x → Stored json m y → x ≡ y
  Stored-same m x y k (raw, at, e) (raw2, at2, e2) =
      cc (at, e, at2, e2, ap (λ (j : Text). value_at j m) k)

  put-first :
      (r x : Record) (m : Data)
      → text_eq (bounded r).name [] ≡ false
      → Orderly json m
      → length m ≤ most
      → Stored json m x
      → has_key (key_of x) (put json most m r).0 ≡ false
      → All
          (Holds json (λ s. (key_of s ≡ key_of (bounded r)) ⊎ (goes_before s x ≡ false)))
          (put json most m r).0
  put-first r x m n o small (raw, at, e) gone =
      let key = key_of (bounded r) in
      let m1 = set_value key (json.marshal (bounded r)) m in
      let there = has_key-value_at (key_of x) raw m at in
      let kept : has_key (key_of x) m1 ≡ true =
        has_key-set_value (key_of x) key (json.marshal (bounded r)) m
        ∙ or_true (text_eq key (key_of x)) (has_key (key_of x) m) there in
      elim (put-PutResult json most some_room law r m n o small) [
        | inl (same, _) ↦ absurd (cc (there, gone, ap (has_key (key_of x)) same))
        | inr (inl (new, _)) ↦ absurd (cc (gone, ap (has_key (key_of x)) new, kept))
        | inr (inr (full, (y, lost, apart, (raw2, at2, e2), first))) ↦
            elim (Bool-cases (text_eq (key_of y) (key_of x))) [
              | inr other ↦ absurd (
                  cc (
                    gone,
                    kept,
                    ap (has_key (key_of x)) lost,
                    has_key-delete_other (key_of x) (key_of y) m1 other,
                  ))
              | inl same ↦
                  let k = (text_eq_iff (key_of y) (key_of x)).0 same in
                  let away : text_eq key (key_of x) ≡ false =
                    apart_from key (key_of y) (key_of x) k apart in
                  let e1 =
                    Stored-same m1 y x k (raw2, at2, e2)
                      (
                        raw,
                        value_at-set_other (key_of x) key (json.marshal (bounded r)) m away ∙ at,
                        e,
                      ) in
                  let Last = λ (s : Record). (key_of s ≡ key) ⊎ (goes_before s x ≡ false) in
                  subst (All (Holds json Last)) (sym lost) (
                    delete_key-All (Holds json Last) (key_of y) m1 (
                      subst
                        (λ (z : Record).
                          All (Holds json (λ s. (key_of s ≡ key) ⊎ (goes_before s z ≡ false))) m1)
                        e1 first))
            ]
      ]

  -- A record that Put of a record with a name lets go of, from a memory in order and within its bound, goes
  -- first among the records: of those that stay, but for the new one, each that
  -- has departed departed no earlier, and then the lost one has departed too; and if the lost one was still
  -- alive, all of them are alive, and born no earlier.
  pub put-lets_go :
      (r x : Record) (m : Data)
      → text_eq (bounded r).name [] ≡ false
      → Orderly json m
      → length m ≤ most
      → Stored json m x
      → has_key (key_of x) (put json most m r).0 ≡ false
      → All
          (Holds json (λ s. (key_of s ≡ key_of (bounded r)) ⊎ GoesFirst x s))
          (put json most m r).0
  put-lets_go r x m n o small stored gone =
      let Before = λ (s : Record). (key_of s ≡ key_of (bounded r)) ⊎ (goes_before s x ≡ false) in
      let First = λ (s : Record). (key_of s ≡ key_of (bounded r)) ⊎ GoesFirst x s in
      All-mono (Holds json Before) (Holds json First) (put json most m r).0
        (λ e h. (h.0, h.1, h.2, h.3, spelled_out h.0 h.4)) (put-first r x m n o small stored gone)
    where
      spelled_out :
          (s : Record)
          → (key_of s ≡ key_of (bounded r)) ⊎ (goes_before s x ≡ false)
          → (key_of s ≡ key_of (bounded r)) ⊎ GoesFirst x s
      spelled_out s (inl new) = inl new
      spelled_out s (inr later) = inr (goes_before-GoesFirst s x later)
