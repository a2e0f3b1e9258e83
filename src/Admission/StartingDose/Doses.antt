-- ===== src/Admission/StartingDose/Doses.antt =====
-- What StartingDose gives, and what it leaves alone.
use kyvernetria.Admission.StartingDose.{
  ResourceList, lookup, is_some, set, Container, Pod, doses, unstated, missing_of, missing, set_all,
  dose_container, dose_all, lines, nonempty, any_missing, needs_dose, dose, exempt, noted_line,
}
use kyvernetria.Prelude.{
  ◌≡◌, inl, inr, refl, Bool, true, false, ◌||◌, List, [], ◌∷◌, ◌++◌, String, arith, str_eq_iff,
  Bool-cases,
}

-- What a container states about a resource.
abbrev pub stated : Container → String → Bool
stated c name = is_some (lookup name c.requests) || is_some (lookup name c.limits)

dose_container-cpu : (c : Container) → unstated (dose_container c) "cpu" ≡ false
unfolding dose_container unstated missing missing_of doses set_all set lookup
dose_container-cpu c = ground arith

dose_container-memory : (c : Container) → unstated (dose_container c) "memory" ≡ false
unfolding dose_container unstated missing missing_of doses set_all set lookup
dose_container-memory c = ground arith

-- A dose goes only to a resource that the container states nothing about.
pub dose_container-lookup :
    (c : Container) (name : String)
    → stated c name ≡ true
    → lookup name (dose_container c).requests ≡ lookup name c.requests
unfolding dose_container missing missing_of doses set_all set lookup unstated
dose_container-lookup c name h = ground (arith, str_eq_iff "cpu" name, str_eq_iff "memory" name)

missing-none :
    (c : Container) → unstated c "cpu" ≡ false → unstated c "memory" ≡ false → missing c ≡ []
unfolding missing missing_of doses unstated
missing-none c h k = ground arith

dose_container-missing : (c : Container) → missing (dose_container c) ≡ []
dose_container-missing c =
    missing-none (dose_container c) (dose_container-cpu c) (dose_container-memory c)

dose_all-any_missing : (cs : List Container) → any_missing (dose_all cs) ≡ false
unfolding any_missing dose_all
dose_all-any_missing [] = refl
dose_all-any_missing (c ∷ cs) = rw (dose_container-missing c) (dose_all-any_missing cs)

-- A dosed pod needs no dose, so that a second one changes nothing.
pub needs_dose-dose : (pod : Pod) → needs_dose (dose pod).0 ≡ false
unfolding needs_dose dose
needs_dose-dose pod = elim (Bool-cases (exempt pod)) [
  | inl spared ↦ simp spared refl
  | inr dosed ↦
      simp (dosed, dose_all-any_missing pod.init_containers, dose_all-any_missing pod.containers)
        refl
]

nonempty-append {ℓ} :
    {A : Type ℓ} (xs ys : List A) → nonempty (xs ++ ys) ≡ nonempty xs || nonempty ys
nonempty-append [] ys = refl
nonempty-append (x ∷ xs) ys = refl

nonempty-noted_line : (c : Container) (r : ResourceList) → nonempty (noted_line c r) ≡ nonempty r
nonempty-noted_line c [] = refl
nonempty-noted_line c (x ∷ xs) = refl

lines-any_missing : (cs : List Container) → nonempty (lines cs) ≡ any_missing cs
unfolding lines any_missing
lines-any_missing [] = refl
lines-any_missing (c ∷ cs) = rw (nonempty-append, nonempty-noted_line, lines-any_missing cs) refl

-- Dose reports a change exactly when NeedsDose finds a need.
pub dose-needs_dose : (pod : Pod) → (dose pod).1 ≡ needs_dose pod
unfolding dose needs_dose
dose-needs_dose pod = elim (Bool-cases (exempt pod)) [
  | inl spared ↦ simp spared refl
  | inr dosed ↦
      simp
        (
          dosed,
          nonempty-append,
          lines-any_missing pod.init_containers,
          lines-any_missing pod.containers,
        )
        refl
]
