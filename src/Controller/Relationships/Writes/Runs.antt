-- ===== src/Controller/Relationships/Writes/Runs.antt =====
-- The writes of reconcile, all of them done, and what the creates leave.
use kyvernetria.Text.{Text, text_eq, text_eq_iff}
use kyvernetria.Text.Table.{
  Table, value_at, set_value, has_key, Unique, value_at-set_value, value_at-set_other,
  value_at-first, value_at-absent, value_at-passed,
}
use kyvernetria.Controller.Relationships.Writes.{
  Write, all_creates, create_unless, written, perform,
}
use kyvernetria.Prelude.{
  ◌≡◌, refl, sym, subst, ◌∙◌, Bool, true, false, List, [], ◌∷◌, ◌++◌, Option, none, some,
  Bool-cases, inl, inr, arith,
}

-- Every write is done.
unfoldable pub run : List Write → Table → Table
unfolding written
run [] m = m
run (w ∷ ws) m = run ws (written w m)

pub perform-run :
    (fails : Write → Bool) (ws : List Write) (m : Table)
    → (perform fails ws m).1 ≡ false
    → (perform fails ws m).0 ≡ run ws m
unfolding perform run
perform-run fails [] m h = refl
perform-run fails (w ∷ ws) m h = elim (Bool-cases (fails w)) [
  | inl fails_now ↦ absurd (ground (arith, fails_now, h))
  | inr works ↦ rw (works, perform) (perform-run fails ws (written w m) (ground (arith, works, h)))
]

pub run-append : (ws vs : List Write) (m : Table) → run (ws ++ vs) m ≡ run vs (run ws m)
unfolding run
run-append [] vs m = refl
run-append (w ∷ ws) vs m = run-append ws vs (written w m)

value_at-has_key :
    (k : Text) (m : Table) → has_key k m ≡ true → (t : Text) × (value_at k m ≡ some t)
value_at-has_key k [] h = absurd (cc h)
value_at-has_key k ((j, v) ∷ m) h = elim (Bool-cases (text_eq j k)) [
  | inl same ↦ (
    v,
    subst (λ (x : Text). value_at x ((j, v) ∷ m) ≡ some v) ((text_eq_iff j k).0 same)
        (value_at-first j v m),
  )
  | inr other ↦
      let (t, at) = value_at-has_key k m (ground (arith, h, other)) in
      (t, value_at-passed k j v m other ∙ at)
]

abbrev pub first_some : Option Text → Option Text → Option Text
first_some none o = o
first_some (some t) o = some t

pub first_some-none : (o : Option Text) → first_some o none ≡ o
first_some-none none = refl
first_some-none (some t) = refl

create_unless-value_at :
    (k j v : Text) (desired m : Table) (b : Bool)
    → has_key j m ≡ b
    → has_key j desired ≡ false
    → first_some (value_at k (create_unless b j v m)) (value_at k desired)
      ≡ first_some (value_at k m) (value_at k ((j, v) ∷ desired))
unfolding create_unless
create_unless-value_at k j v desired m true there h = elim (Bool-cases (text_eq j k)) [
  | inr other ↦ rw (value_at-passed k j v desired other) refl
  | inl same ↦
      let (t, at) = value_at-has_key j m there in
      subst
        (λ (x : Text).
          first_some (value_at x m) (value_at x desired)
          ≡ first_some (value_at x m) (value_at x ((j, v) ∷ desired)))
        ((text_eq_iff j k).0 same) (rw at refl)
]
create_unless-value_at k j v desired m false gone h = elim (Bool-cases (text_eq j k)) [
  | inr other ↦ rw (value_at-set_other k j v m other, value_at-passed k j v desired other) refl
  | inl same ↦
      subst
        (λ (x : Text).
          first_some (value_at x (set_value j v m)) (value_at x desired)
          ≡ first_some (value_at x m) (value_at x ((j, v) ∷ desired)))
        ((text_eq_iff j k).0 same)
        (rw (value_at-set_value j v m, value_at-absent j m gone, value_at-first j v desired) refl)
]

-- The creates add what is desired where there is nothing.
pub run-all_creates :
    (k : Text) (desired m : Table)
    → Unique desired
    → value_at k (run (all_creates desired) m) ≡ first_some (value_at k m) (value_at k desired)
unfolding run all_creates written
run-all_creates k [] m u = unfold value_at in sym (first_some-none (value_at k m))
run-all_creates k ((j, v) ∷ desired) m u =
    run-all_creates k desired (create_unless (has_key j m) j v m) u.1
    ∙ create_unless-value_at k j v desired m (has_key j m) refl u.0
