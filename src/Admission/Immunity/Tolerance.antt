-- ===== src/Admission/Immunity/Tolerance.antt =====
-- admission/immunity/admission.go: what is new in a pod, and the verdict on it.
use kyvernetria.Admission.NoBruteForce.{create, update, allowed}
use kyvernetria.Admission.Antigens.{Antigen, Pod, antigens}
use kyvernetria.Admission.Immunity.{
  Antigen_discrete, is_yes, has, new_antigens, converted, Attributes, Namespace, is_self, tolerated,
  judge_antigens, judge_object, looked_at, validate,
}
use kyvernetria.Prelude.{
  ℕ, ◌≡◌, ◌↔◌, ◌⊎◌, inl, inr, refl, ◌∙◌, Bool, true, false, not, ◌||◌, List, [], ◌∷◌, Option, none,
  some, arith, keep, All, Bool-cases,
}

has_self : (a : Antigen) (xs : List Antigen) → has a (a ∷ xs) ≡ true
unfolding has
has_self a xs = elim (Antigen_discrete a a) as (λ d. is_yes d || has a xs ≡ true) [
  | yes e ↦ refl
  | no n ↦ absurd (n refl)
]

has-later : (a b : Antigen) (xs : List Antigen) → has a xs ≡ true → has a (b ∷ xs) ≡ true
unfolding has
has-later a b xs h = elim (Antigen_discrete a b) as (λ d. is_yes d || has a xs ≡ true) [
  | yes e ↦ refl
  | no n ↦ h
]

All-mono {ℓ κ} :
    {A : Type ℓ} {P Q : A → Type κ} (xs : List A) → ((x : A) → P x → Q x) → All P xs → All Q xs
All-mono [] f h = h
All-mono (x ∷ xs) f h = (f x h.0, All-mono xs f h.1)

antigens_held : (xs : List Antigen) → All (λ a. has a xs ≡ true) xs
antigens_held [] = tt
antigens_held (a ∷ xs) = (has_self a xs, All-mono xs (λ b h. has-later b a xs h) (antigens_held xs))

keep-none :
    (p : Antigen → Bool) (xs : List Antigen)
    → All (λ a. p a ≡ true) xs
    → keep (λ a. not (p a)) xs ≡ []
keep-none p [] h = refl
keep-none p (a ∷ xs) h = rw (keep, h.0) (keep-none p xs h.1)

-- An update that leaves a pod as it is brings nothing new.
new_antigens-same : (wide : ℕ → ℕ) (pod : Pod) → new_antigens wide (some pod) pod ≡ []
unfolding new_antigens
new_antigens-same wide pod =
    keep-none (λ a. has a (antigens wide pod)) (antigens wide pod)
      (antigens_held (antigens wide pod))

keep-All :
    (p : Antigen → Bool) (xs : List Antigen) → All (λ a. p a ≡ false) (keep (λ a. not (p a)) xs)
keep-All p [] = tt
keep-All p (a ∷ xs) = keep-All_at (p a) refl (keep-All p xs)
  where
    keep-All_at :
        (b : Bool)
        → p a ≡ b
        → All (λ a. p a ≡ false) (keep (λ a. not (p a)) xs)
        → All
            (λ a. p a ≡ false)
            (elim (not b) [
              | true ↦ a ∷ keep (λ a. not (p a)) xs
              | false ↦ keep (λ a. not (p a)) xs
            ])
    keep-All_at true e rest = rest
    keep-All_at false e rest = (e, rest)

-- What is new in an updated pod, the pod before it did not have.
pub new_antigens-has :
    (wide : ℕ → ℕ) (old pod : Pod)
    → All (λ a. has a (antigens wide old) ≡ false) (new_antigens wide (some old) pod)
unfolding new_antigens
new_antigens-has wide old pod = keep-All (λ a. has a (antigens wide old)) (antigens wide pod)

validate-looked_at :
    (wide : ℕ → ℕ) (ns : Namespace) (a : Attributes)
    → looked_at a ≡ true
    → validate wide ns a ≡ judge_object wide ns a a.object
unfolding validate
validate-looked_at wide ns a seen = rw seen refl

judge_object-same :
    (wide : ℕ → ℕ) (ns : Namespace) (a : Attributes) (pod : Pod)
    → a.operation ≡ update
    → a.object ≡ converted pod
    → a.old_object ≡ converted pod
    → judge_object wide ns a a.object ≡ allowed
unfolding judge_object judge_antigens
judge_object-same wide ns a pod op new old = rw (new, op, old, new_antigens-same wide pod) refl

-- An update that leaves a pod as it is is allowed, in whatever namespace and whatever the pod carries.
pub validate-same :
    (wide : ℕ → ℕ) (ns : Namespace) (a : Attributes) (pod : Pod)
    → a.operation ≡ update
    → a.object ≡ converted pod
    → a.old_object ≡ converted pod
    → validate wide ns a ≡ allowed
unfolding validate
validate-same wide ns a pod op new old = elim (Bool-cases (looked_at a)) [
  | inr passed ↦ rw passed refl
  | inl seen ↦ rw seen (judge_object-same wide ns a pod op new old)
]

tolerated_iff : (o : Option Bool) → (tolerated o ≡ allowed) ↔ (o ≡ some true)
tolerated_iff none = (λ h. cc, λ h. cc)
tolerated_iff (some true) = (λ h. refl, λ h. refl)
tolerated_iff (some false) = (λ h. cc, λ h. cc)

judge_antigens-allowed_iff :
    (ns : Namespace) (xs : List Antigen)
    → (judge_antigens ns xs ≡ allowed)
      ↔ ((xs ≡ []) ⊎ ((ns.ready ≡ true) × (is_self ns ≡ some true)))
unfolding judge_antigens
judge_antigens-allowed_iff ns [] = (λ h. inl refl, λ h. refl)
judge_antigens-allowed_iff ns (a ∷ xs) = (
  λ h. grind (arith, (tolerated_iff (is_self ns)).0),
  λ h. grind (arith, (tolerated_iff (is_self ns)).1),
)

judge_object-create :
    (wide : ℕ → ℕ) (ns : Namespace) (a : Attributes) (pod : Pod)
    → a.operation ≡ create
    → a.object ≡ converted pod
    → judge_object wide ns a a.object ≡ judge_antigens ns (antigens wide pod)
unfolding judge_object new_antigens
judge_object-create wide ns a pod op new = rw (new, op) refl

-- A new pod is allowed exactly when it carries no antigen, or when the cache is ready and its namespace is self.
pub validate-create_iff :
    (wide : ℕ → ℕ) (ns : Namespace) (a : Attributes) (pod : Pod)
    → looked_at a ≡ true
    → a.operation ≡ create
    → a.object ≡ converted pod
    → (validate wide ns a ≡ allowed)
      ↔ ((antigens wide pod ≡ []) ⊎ ((ns.ready ≡ true) × (is_self ns ≡ some true)))
validate-create_iff wide ns a pod seen op new =
    rw (validate-looked_at wide ns a seen ∙ judge_object-create wide ns a pod op new)
      (judge_antigens-allowed_iff ns (antigens wide pod))
