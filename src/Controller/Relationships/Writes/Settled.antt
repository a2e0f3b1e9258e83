-- ===== src/Controller/Relationships/Writes/Settled.antt =====
-- What reconcile leaves behind when no write fails.
use kyvernetria.Text.{Text, text_eq, text_eq_iff, text_eq_refl}
use kyvernetria.Text.Table.{
  Table, value_at, set_value, delete_key, has_key, Unique, value_at-set_value, value_at-set_other,
  value_at-delete_key, value_at-first, value_at-later, delete_key-Unique, set_value-Unique,
  has_key-value_at, value_at-deleted,
}
use kyvernetria.Controller.Relationships.Graph.{Relationship}
use kyvernetria.Controller.Relationships.Writes.Runs.{
  run, perform-run, run-append, first_some, first_some-none, run-all_creates,
}
use kyvernetria.Controller.Relationships.Writes.{
  Write, update_unless, writes_for, writes, written, desired_objects, reconcile,
}
use kyvernetria.Prelude.{
  ◌≡◌, refl, sym, ap, subst, ◌∙◌, Bool, true, false, List, [], ◌∷◌, Option, none, some, Bool-cases,
  inl, inr, arith,
}

-- Where the objects that are listed still are: the server has them as listed.
abbrev pub Agrees : Table → Table → Type 0
Agrees current m = (k spec : Text) → value_at k current ≡ some spec → value_at k m ≡ some spec

-- What a key holds in the end: what is desired if it was listed, or what was there, or what is created.
abbrev pub outcome : Text → Table → Table → Table → Option Text
outcome k current desired m = elim (has_key k current) [
  | true ↦ value_at k desired
  | false ↦ first_some (value_at k m) (value_at k desired)
]

-- One listed object settles its own key, and leaves the others to the rest.
abbrev pub Settles : Text → Table → Table → Table → Table → Type 0
Settles j desired m desired1 m1 =
    (value_at j desired1 ≡ none)
    × (value_at j m1 ≡ value_at j desired)
    × ((k : Text)
        → text_eq j k ≡ false
        → (value_at k desired1 ≡ value_at k desired) × (value_at k m1 ≡ value_at k m))
    × Unique desired1

update-Settles :
    (j spec want : Text) (desired m : Table)
    → value_at j desired ≡ some want
    → value_at j m ≡ some spec
    → Unique desired
    → (b : Bool) → text_eq spec want ≡ b
    → Settles j desired m (delete_key j desired) (run (update_unless b j want) m)
unfolding run written
update-Settles j spec want desired m d c u true e = (
  value_at-deleted j desired,
  c ∙ ap some ((text_eq_iff spec want).0 e) ∙ sym d,
  λ k other. (value_at-delete_key k j desired other, refl),
  delete_key-Unique j desired u,
)
update-Settles j spec want desired m d c u false e = (
  value_at-deleted j desired,
  value_at-set_value j want m ∙ sym d,
  λ k other. (value_at-delete_key k j desired other, value_at-set_other k j want m other),
  delete_key-Unique j desired u,
)

writes_for-Settles :
    (j spec : Text) (desired m : Table)
    → value_at j m ≡ some spec
    → Unique desired
    → (found : Option Text) → value_at j desired ≡ found
    → Settles j desired m
        (writes_for j spec desired found).1
        (run (writes_for j spec desired found).0 m)
unfolding run written
writes_for-Settles j spec desired m c u none d =
    (d, value_at-deleted j m ∙ sym d, λ k other. (refl, value_at-delete_key k j m other), u)
writes_for-Settles j spec desired m c u (some want) d =
    update-Settles j spec want desired m d c u (text_eq spec want) refl

outcome-old :
    (k : Text) (current desired m : Table)
    → has_key k current ≡ true
    → outcome k current desired m ≡ value_at k desired
outcome-old k current desired m h =
    ap
      (λ (b : Bool). elim b [
        | true ↦ value_at k desired
        | false ↦ first_some (value_at k m) (value_at k desired)
      ])
      h

outcome-new :
    (k : Text) (current desired m : Table)
    → has_key k current ≡ false
    → outcome k current desired m ≡ first_some (value_at k m) (value_at k desired)
outcome-new k current desired m h =
    ap
      (λ (b : Bool). elim b [
        | true ↦ value_at k desired
        | false ↦ first_some (value_at k m) (value_at k desired)
      ])
      h

has_key-first : (k spec : Text) (m : Table) → has_key k ((k, spec) ∷ m) ≡ true
has_key-first k spec m = ground (arith, text_eq_refl k)

outcome-Settles :
    (k j spec : Text) (current desired m desired1 m1 : Table)
    → has_key j current ≡ false
    → Settles j desired m desired1 m1
    → outcome k current desired1 m1 ≡ outcome k ((j, spec) ∷ current) desired m
outcome-Settles k j spec current desired m desired1 m1 h (gone, done, others, _) =
    elim (Bool-cases (text_eq j k)) [
      | inl same ↦
          subst
            (λ (x : Text).
              outcome x current desired1 m1 ≡ outcome x ((j, spec) ∷ current) desired m)
            ((text_eq_iff j k).0 same)
            (outcome-new j current desired1 m1 h
              ∙ ap (λ (o : Option Text). first_some (value_at j m1) o) gone
              ∙ first_some-none (value_at j m1)
              ∙ done
              ∙ sym (outcome-old j ((j, spec) ∷ current) desired m (has_key-first j spec current)))
      | inr other ↦ ground (arith, other, (others k other).0, (others k other).1)
    ]

Agrees-Settles :
    (j spec : Text) (current desired m desired1 m1 : Table)
    → has_key j current ≡ false
    → Agrees ((j, spec) ∷ current) m
    → Settles j desired m desired1 m1
    → Agrees current m1
Agrees-Settles j spec current desired m desired1 m1 h a (_, _, others, _) k v e =
    elim (Bool-cases (text_eq j k)) [
      | inl same ↦ absurd (
          cc (
            h,
            has_key-value_at k v current e,
            ap (λ (x : Text). has_key x current) ((text_eq_iff j k).0 same),
          ))
      | inr other ↦ (others k other).1 ∙ a k v (value_at-later k j spec v current h e)
    ]

run-writes :
    (k : Text) (current desired m : Table)
    → Unique current
    → Unique desired
    → Agrees current m
    → value_at k (run (writes current desired) m) ≡ outcome k current desired m
unfolding writes
run-writes k [] desired m uc ud a = run-all_creates k desired m ud
run-writes k ((j, spec) ∷ current) desired m uc ud a =
    let step = writes_for j spec desired (value_at j desired) in
    let settled =
      writes_for-Settles j spec desired m (a j spec (value_at-first j spec current)) ud
        (value_at j desired) refl in
    ap (value_at k) (run-append step.0 (writes current step.1) m)
    ∙ run-writes k current step.1 (run step.0 m) uc.1 settled.3
        (Agrees-Settles j spec current desired m step.1 (run step.0 m) uc.0 a settled)
    ∙ outcome-Settles k j spec current desired m step.1 (run step.0 m) uc.0 settled

desired_objects-Unique :
    (key spec : Relationship → Text) (rs : List Relationship) (m : Table)
    → Unique m
    → Unique (desired_objects key spec rs m)
unfolding desired_objects
desired_objects-Unique key spec [] m u = u
desired_objects-Unique key spec (r ∷ rs) m u =
    desired_objects-Unique key spec rs (set_value (key r) (spec r) m)
      (set_value-Unique (key r) (spec r) m u)

-- Once reconcile has returned no error, the key of a listed object holds what the graph asks for there, and
-- nothing if the graph asks for nothing. Any other key holds the object without the controller's label that
-- stands there, and if there is none what the graph asks for. The API holds the listed objects as they are listed,
-- each once.
pub reconcile-outcome :
    (fails : Write → Bool) (key spec : Relationship → Text) (edges : List Relationship)
    (current objects : Table) (k : Text)
    → Unique current
    → Agrees current objects
    → (reconcile fails key spec edges current objects).1 ≡ false
    → value_at k (reconcile fails key spec edges current objects).0
      ≡ outcome k current (desired_objects key spec edges []) objects
unfolding reconcile
reconcile-outcome fails key spec edges current objects k u a h =
    let desired = desired_objects key spec edges [] in
    ap (value_at k) (perform-run fails (writes current desired) objects h)
    ∙ run-writes k current desired objects u (desired_objects-Unique key spec edges [] tt) a
