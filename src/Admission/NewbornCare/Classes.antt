-- ===== src/Admission/NewbornCare/Classes.antt =====
-- Which class a newborn's pod may get.
use kyvernetria.Admission.NewbornCare.{
  Labels, PriorityClass, Kube, Pod, selects, outranks, class_if, first_class, class_for, Namespace,
  not_ready, unreadable, annotated, settled, protect, admit_in, admit,
}
use kyvernetria.Gestation.Care.{NewbornEntry, Newborns, decode_newborns, is_newborn_class}
use kyvernetria.Prelude.Int.{ℤ}
use kyvernetria.Prelude.{
  ◌≡◌, ◌⊎◌, inl, inr, refl, sym, subst, true, false, ◌&&◌, List, [], ◌∷◌, String, Option, none,
  some, arith, any, str_eq, str_eq_iff, Bool-cases, Option-cases, and-eq_true,
}

-- The lister gives a class under its own name.
abbrev pub NamesItself : Kube → Type 0
NamesItself kube =
    (name : String) (class : PriorityClass) → kube.get name ≡ some class → class.name ≡ name

-- A class of newborn care that exists and that no global default outranks.
abbrev pub Protects : Kube → String → Type 0
Protects kube name =
    (is_newborn_class name ≡ true)
    × ((class : PriorityClass) × (kube.get name ≡ some class)
        × ((others : List PriorityClass) × (kube.list ≡ some others)
            × (any (outranks class) others ≡ false)))

class_if-Protects :
    (kube : Kube) (name : String) (c : Option PriorityClass) (o : Option (List PriorityClass))
    → NamesItself kube
    → is_newborn_class name ≡ true
    → kube.get name ≡ c
    → kube.list ≡ o
    → (class_if c o ≡ "") ⊎ Protects kube (class_if c o)
class_if-Protects kube name none o n h e f = inl refl
class_if-Protects kube name (some class) none n h e f = inl refl
class_if-Protects kube name (some class) (some others) n h e f =
    elim (Bool-cases (any (outranks class) others)) [
      | inl high ↦ rw high (inl refl)
      | inr low ↦
          rw low
            (inr (subst (Protects kube) (sym (n name class e)) (h, (class, e, (others, f, low)))))
    ]

first_class-Protects :
    (kube : Kube) (labels : Labels) (es : List NewbornEntry)
    → NamesItself kube
    → (first_class kube labels es ≡ "") ⊎ Protects kube (first_class kube labels es)
unfolding first_class
first_class-Protects kube labels [] n = inl refl
first_class-Protects kube labels (e ∷ es) n =
    elim (Bool-cases
      (is_newborn_class e.priority_class && selects (kube.parse e.selector) labels)) [
        | inr other ↦ rw (first_class, other) (first_class-Protects kube labels es n)
        | inl own ↦
            rw (first_class, own)
              (class_if-Protects kube e.priority_class (kube.get e.priority_class) kube.list n
                ((and-eq_true _ _).0 own).0 refl refl)
      ]

class_for-Protects :
    (kube : Kube) (raw : Newborns) (labels : Labels)
    → NamesItself kube
    → (class_for kube raw labels ≡ "") ⊎ Protects kube (class_for kube raw labels)
unfolding class_for
class_for-Protects kube raw labels n = elim (Option-cases (decode_newborns raw)) [
  | inl garbled ↦ rw garbled (inl refl)
  | inr (es, listed) ↦ rw listed (first_class-Protects kube labels es n)
]

-- What Admit leaves of a pod: the pod itself, or one without a class that got a class that protects it.
abbrev pub Admitted : Kube → Pod → Pod → Type 0
Admitted kube pod out =
    (out ≡ pod)
    ⊎ ((pod.class_name ≡ "")
        × (pod.priority ≡ none)
        × (out.priority ≡ none)
        × Protects kube out.class_name
        × (out.newborn_care ≡ some out.class_name))

unsettled : (pod : Pod) (p : Option ℤ) → settled pod p ≡ false → (pod.class_name ≡ "") × (p ≡ none)
unsettled pod none h = (ground (arith, str_eq_iff pod.class_name ""), refl)
unsettled pod (some p) h = absurd (cc h)

protect-Admitted :
    (kube : Kube) (class : String) (pod : Pod)
    → pod.class_name ≡ ""
    → pod.priority ≡ none
    → (class ≡ "") ⊎ Protects kube class
    → Admitted kube pod (protect class pod)
protect-Admitted kube class pod e p cases = elim (Bool-cases (str_eq class "")) [
  | inl empty ↦ rw empty (inl refl)
  | inr named ↦ elim cases [
    | inl empty ↦ absurd (cc (named, (str_eq_iff class "").1 empty))
    | inr protects ↦ rw named (inr (e, p, p, protects, refl))
  ]
]

admit_in-Admitted :
    (kube : Kube) (ns : Namespace) (pod : Pod)
    → NamesItself kube
    → pod.class_name ≡ ""
    → pod.priority ≡ none
    → Admitted kube pod (admit_in kube ns pod)
unfolding admit_in
admit_in-Admitted kube not_ready pod n e p = inl refl
admit_in-Admitted kube unreadable pod n e p = inl refl
admit_in-Admitted kube (annotated raw) pod n e p =
    protect-Admitted kube (class_for kube raw pod.labels) pod e p
      (class_for-Protects kube raw pod.labels n)

-- Where the lister gives each class under its own name, the plugin leaves a pod as it is, or gives one
-- that has neither class nor priority an existing class of newborn care that no global default outranks,
-- whatever the namespace's annotation says, and notes the class on it.
pub admit-Admitted :
    (kube : Kube) (ns : Namespace) (pod : Pod)
    → NamesItself kube
    → Admitted kube pod (admit kube ns pod)
unfolding admit
admit-Admitted kube ns pod n = elim (Bool-cases (settled pod pod.priority)) [
  | inl has ↦ rw has (inl refl)
  | inr bare ↦
      let (class, priority) = unsettled pod pod.priority bare in
      rw bare (admit_in-Admitted kube ns pod n class priority)
]
