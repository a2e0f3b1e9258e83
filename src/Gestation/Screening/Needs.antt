-- ===== src/Gestation/Screening/Needs.antt =====
-- References: what a pod template needs, told field by field, is what the code collects of it.
use kyvernetria.Text.{Text, text_eq_iff}
use kyvernetria.Gestation.Screening.{
  Template, Source, Ref, Volume, Container, is_optional, required, all_required, has_name,
  volume_names, container_names, all_containers,
}
use kyvernetria.Prelude.{
  ◌≡◌, ◌≢◌, ◌↔◌, ◌⊎◌, ◌||◌, append_assoc, refl, sym, ap, subst, ◌∙◌, Bool, true, false, List, [],
  ◌∷◌, ◌++◌, Option, none, some, arith, Bool-cases, inl, inr,
}

has_name-append :
    (n : Text) (xs ys : List Text) → has_name n (xs ++ ys) ≡ (has_name n xs || has_name n ys)
unfolding has_name
has_name-append n [] ys = refl
has_name-append n (x ∷ xs) ys = ground (arith, has_name-append n xs ys)

-- What the code collects of a template, before it sorts the names.
abbrev pub needed_by : (Source → Option Ref) → Template → List Text
needed_by f t = volume_names f t.volumes ++ container_names f (all_containers t)

abbrev pub needed_secrets : Template → List Text
needed_secrets t =
    t.image_pull_secrets
    ++ volume_names (λ s. s.secret) t.volumes
    ++ container_names (λ s. s.secret) (all_containers t)

abbrev pub needed_config_maps : Template → List Text
needed_config_maps t = needed_by (λ s. s.config_map) t

-- One element of a list has the property.
abbrev pub AnyOf {ℓ} : {A : Type ℓ} → (A → Type 0) → List A → Type 0
AnyOf P [] = ⊥
AnyOf P (x ∷ xs) = P x ⊎ AnyOf P xs

-- A reference to the name n that is not optional.
abbrev pub PointsTo : Text → Option Ref → Type 0
PointsTo n none = ⊥
PointsTo n (some r) = (r.name ≡ n) × (r.optional ≢ some true)

-- A template needs the name n: as a volume, in a projected volume, or in the environment of an init container
-- or of a container, one by one or as a whole.
abbrev pub VolumeNeeds : (Source → Option Ref) → Text → Volume → Type 0
VolumeNeeds f n v = PointsTo n (f v.refs) ⊎ AnyOf (λ s. PointsTo n (f s)) v.projected

abbrev pub ContainerNeeds : (Source → Option Ref) → Text → Container → Type 0
ContainerNeeds f n c =
    AnyOf (λ s. PointsTo n (f s)) c.env_from ⊎ AnyOf (λ s. PointsTo n (f s)) c.env

abbrev pub Needs : (Source → Option Ref) → Text → Template → Type 0
Needs f n t =
    AnyOf (VolumeNeeds f n) t.volumes
    ⊎ (AnyOf (ContainerNeeds f n) t.init_containers ⊎ AnyOf (ContainerNeeds f n) t.containers)

-- Secrets are needed to pull images, too.
abbrev pub NeedsSecret : Text → Template → Type 0
NeedsSecret n t = AnyOf (λ m. m ≡ n) t.image_pull_secrets ⊎ Needs (λ s. s.secret) n t

both_iff :
    {P Q : Type 0} (n : Text) (xs ys : List Text)
    → (has_name n xs ≡ true) ↔ P
    → (has_name n ys ≡ true) ↔ Q
    → (has_name n (xs ++ ys) ≡ true) ↔ (P ⊎ Q)
both_iff n xs ys p q = (
  λ h. elim (Bool-cases (has_name n xs)) [
    | inl first ↦ inl (p.0 first)
    | inr later ↦ inr (q.0 (ground (arith, h, later, has_name-append n xs ys)))
  ],
  λ e. elim e [
    | inl x ↦ ground (arith, p.1 x, has_name-append n xs ys)
    | inr y ↦ ground (arith, q.1 y, has_name-append n xs ys)
  ],
)

has_name-nil_iff : (n : Text) → (has_name n [] ≡ true) ↔ ⊥
unfolding has_name
has_name-nil_iff n = (λ h. cc h, λ e. absurd e)

has_name-one_iff : (n m : Text) → (has_name n (m ∷ []) ≡ true) ↔ (m ≡ n)
unfolding has_name
has_name-one_iff n m = (
  λ h. sym ((text_eq_iff n m).0 (ground (arith, h))),
  λ e. ground (arith, (text_eq_iff n m).1 (sym e)),
)

optional_cases : (o : Option Bool) → (o ≡ some true) ⊎ ((is_optional o ≡ false) × (o ≢ some true))
optional_cases none = inr (refl, λ e. cc e)
optional_cases (some true) = inl refl
optional_cases (some false) = inr (refl, λ e. cc e)

required_iff : (n : Text) (o : Option Ref) → (has_name n (required o) ≡ true) ↔ PointsTo n o
required_iff n none = has_name-nil_iff n
required_iff n (some r) = elim (optional_cases r.optional) [
  | inl optional ↦
      subst (Taken r) (sym (ap is_optional optional))
        (λ h. absurd ((has_name-nil_iff n).0 h), λ p. absurd (p.1 optional))
  | inr needed ↦
      subst (Taken r) (sym needed.0)
        (λ h. ((has_name-one_iff n r.name).0 h, needed.1), λ p. (has_name-one_iff n r.name).1 p.0)
]
  where
    Taken : Ref → Bool → Type 0
    Taken r b =
        (has_name n (elim b [ true ↦ [] | false ↦ r.name ∷ [] ]) ≡ true) ↔ PointsTo n (some r)

all_required_iff :
    (f : Source → Option Ref) (n : Text) (ss : List Source)
    → (has_name n (all_required f ss) ≡ true) ↔ AnyOf (λ s. PointsTo n (f s)) ss
unfolding all_required
all_required_iff f n [] = has_name-nil_iff n
all_required_iff f n (s ∷ ss) =
    both_iff n (required (f s)) (all_required f ss) (required_iff n (f s)) (all_required_iff f n ss)

volume_names_iff :
    (f : Source → Option Ref) (n : Text) (vs : List Volume)
    → (has_name n (volume_names f vs) ≡ true) ↔ AnyOf (VolumeNeeds f n) vs
unfolding volume_names
volume_names_iff f n [] = has_name-nil_iff n
volume_names_iff f n (v ∷ vs) =
    both_iff n (required (f v.refs) ++ all_required f v.projected) (volume_names f vs)
      (both_iff n (required (f v.refs)) (all_required f v.projected) (required_iff n (f v.refs))
        (all_required_iff f n v.projected))
      (volume_names_iff f n vs)

container_names_iff :
    (f : Source → Option Ref) (n : Text) (cs : List Container)
    → (has_name n (container_names f cs) ≡ true) ↔ AnyOf (ContainerNeeds f n) cs
unfolding container_names
container_names_iff f n [] = has_name-nil_iff n
container_names_iff f n (c ∷ cs) =
    both_iff n (all_required f c.env_from ++ all_required f c.env) (container_names f cs)
      (both_iff n (all_required f c.env_from) (all_required f c.env)
        (all_required_iff f n c.env_from) (all_required_iff f n c.env))
      (container_names_iff f n cs)

container_names-append :
    (f : Source → Option Ref) (xs ys : List Container)
    → container_names f (xs ++ ys) ≡ container_names f xs ++ container_names f ys
unfolding container_names
container_names-append f [] ys = refl
container_names-append f (c ∷ xs) ys =
    ap (λ l. (all_required f c.env_from ++ all_required f c.env) ++ l)
      (container_names-append f xs ys)
    ∙ sym (
        append_assoc (all_required f c.env_from ++ all_required f c.env) (container_names f xs)
          (container_names f ys))

pub needed_by_iff :
    (f : Source → Option Ref) (n : Text) (t : Template)
    → (has_name n (needed_by f t) ≡ true) ↔ Needs f n t
unfolding all_containers
needed_by_iff f n t =
    both_iff n (volume_names f t.volumes) (container_names f (all_containers t))
      (volume_names_iff f n t.volumes)
      (rw (container_names-append f t.init_containers t.containers) (
        both_iff n (container_names f t.init_containers) (container_names f t.containers)
          (container_names_iff f n t.init_containers) (container_names_iff f n t.containers)))

pull_secrets_iff : (n : Text) (ms : List Text) → (has_name n ms ≡ true) ↔ AnyOf (λ m. m ≡ n) ms
pull_secrets_iff n [] = has_name-nil_iff n
pull_secrets_iff n (m ∷ ms) = both_iff n (m ∷ []) ms (has_name-one_iff n m) (pull_secrets_iff n ms)

pub needed_secrets_iff :
    (n : Text) (t : Template) → (has_name n (needed_secrets t) ≡ true) ↔ NeedsSecret n t
needed_secrets_iff n t =
    subst (λ l. (has_name n l ≡ true) ↔ NeedsSecret n t)
      (sym (
        append_assoc t.image_pull_secrets (volume_names (λ s. s.secret) t.volumes)
          (container_names (λ s. s.secret) (all_containers t))))
      (both_iff n t.image_pull_secrets (needed_by (λ s. s.secret) t)
        (pull_secrets_iff n t.image_pull_secrets) (needed_by_iff (λ s. s.secret) n t))
