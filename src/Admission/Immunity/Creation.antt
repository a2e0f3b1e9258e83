-- ===== src/Admission/Immunity/Creation.antt =====
-- admission/immunity/admission.go: which new pods are allowed.
use kyvernetria.Admission.Immunity.Harmless.{Harmless, antigens_iff, through}
use kyvernetria.Admission.NoBruteForce.{create, allowed}
use kyvernetria.Admission.Antigens.{Pod}
use kyvernetria.Admission.Immunity.{
  converted, Attributes, Namespace, Label, labelled, missing, unreadable, is_self, is_self_by,
  self_namespace, looked_at, validate,
}
use kyvernetria.Admission.Immunity.Tolerance.{validate-create_iff}
use kyvernetria.Prelude.{
  ℕ, ◌≡◌, ◌↔◌, ◌⊎◌, inl, inr, refl, ap, Bool, true, false, ◌||◌, String, some, Bool-cases,
  str_eq_iff,
}

-- A namespace that is self: one of four names, or the label with the value "true".
abbrev pub IsSelf : Namespace → Type 0
IsSelf ns =
    ((ns.name ≡ "kube-system")
      ⊎ ((ns.name ≡ "kube-public")
          ⊎ ((ns.name ≡ "kube-node-lease") ⊎ (ns.name ≡ "local-path-storage"))))
    ⊎ (ns.label ≡ labelled "true")

or_iff : {P Q : Type 0} (a b : Bool) → (a ≡ true) ↔ P → (b ≡ true) ↔ Q → ((a || b) ≡ true) ↔ (P ⊎ Q)
or_iff true b p q = (λ h. inl (p.0 refl), λ h. refl)
or_iff false b p q = (λ h. inr (q.0 h), λ e. elim e [ inl x ↦ absurd (cc (p.1 x)) | inr y ↦ q.1 y ])

assoc_iff : {P Q R S : Type 0} → ((P ⊎ Q) ⊎ (R ⊎ S)) ↔ (P ⊎ (Q ⊎ (R ⊎ S)))
assoc_iff = (
  λ e. elim e [ inl pq ↦ elim pq [ inl p ↦ inl p | inr q ↦ inr (inl q) ] | inr rs ↦ inr (inr rs) ],
  λ e. elim e [
    | inl p ↦ inl (inl p)
    | inr qrs ↦ elim qrs [ inl q ↦ inl (inr q) | inr rs ↦ inr rs ]
  ],
)

self_namespace_iff :
    (name : String)
    → (self_namespace name ≡ true) ↔ (
        (name ≡ "kube-system")
        ⊎ ((name ≡ "kube-public") ⊎ ((name ≡ "kube-node-lease") ⊎ (name ≡ "local-path-storage"))))
unfolding self_namespace
self_namespace_iff name =
    through
      (or_iff _ _ (or_iff _ _ (str_eq_iff name "kube-system") (str_eq_iff name "kube-public"))
        (or_iff _ _ (str_eq_iff name "kube-node-lease") (str_eq_iff name "local-path-storage")))
      assoc_iff

is_self_by_iff : (l : Label) → (is_self_by l ≡ some true) ↔ (l ≡ labelled "true")
is_self_by_iff missing = (λ h. absurd (cc h), λ h. absurd (cc h))
is_self_by_iff unreadable = (λ h. absurd (cc h), λ h. absurd (cc h))
is_self_by_iff (labelled l) = (
  λ h. ap labelled ((str_eq_iff l "true").0 (cc h)),
  λ h. ap some ((str_eq_iff l "true").1 (cc h)),
)

is_self_iff : (ns : Namespace) → (is_self ns ≡ some true) ↔ IsSelf ns
unfolding is_self
is_self_iff ns = elim (Bool-cases (self_namespace ns.name)) [
  | inl self ↦ rw self (λ h. inl ((self_namespace_iff ns.name).0 self), λ h. refl)
  | inr other ↦ rw other (
    λ h. inr ((is_self_by_iff ns.label).0 h),
    λ e. elim e [
      | inl name ↦ absurd (cc (other, (self_namespace_iff ns.name).1 name))
      | inr label ↦ (is_self_by_iff ns.label).1 label
    ],
  )
]

whole-looked_at : (a : Attributes) → a.pods ≡ true → a.subresource ≡ "" → looked_at a ≡ true
unfolding looked_at
whole-looked_at a pods whole = rw (pods, whole) refl

-- The creation of a pod is allowed exactly when the pod is harmless, or when the cache is ready and the namespace is self.
pub validate-create_allowed_iff :
    (wide : ℕ → ℕ) (ns : Namespace) (a : Attributes) (pod : Pod)
    → a.pods ≡ true
    → a.subresource ≡ ""
    → a.operation ≡ create
    → a.object ≡ converted pod
    → (validate wide ns a ≡ allowed) ↔ (Harmless wide pod ⊎ ((ns.ready ≡ true) × IsSelf ns))
validate-create_allowed_iff wide ns a pod pods whole op new =
    let verdict = validate-create_iff wide ns a pod (whole-looked_at a pods whole) op new in
    (
      λ h. elim (verdict.0 h) [
        | inl clean ↦ inl ((antigens_iff wide pod).0 clean)
        | inr self ↦ inr (self.0, (is_self_iff ns).0 self.1)
      ],
      λ e. elim e [
        | inl harmless ↦ verdict.1 (inl ((antigens_iff wide pod).1 harmless))
        | inr self ↦ verdict.1 (inr (self.0, (is_self_iff ns).1 self.1))
      ],
    )
