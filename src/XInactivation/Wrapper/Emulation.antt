-- ===== src/XInactivation/Wrapper/Emulation.antt =====
-- x-inactivation/main.go: withEmulation gives Xm one emulated version, and respects the caller's.
use kyvernetria.XInactivation.Wrapper.{
  Env, Result, ok, err, is_emulation, with_emulation, xp_minor, emulated_prefix,
}
use kyvernetria.Text.{Text}
use kyvernetria.Text.Split.{has_prefix-append}
use kyvernetria.Prelude.{
  ◌≡◌, ◌⊎◌, inl, inr, refl, ap, ◌∙◌, true, List, [], ◌∷◌, ◌++◌, Option, arith, any, Bool-cases,
}

is_emulation-prefix : (v : Text) → is_emulation (emulated_prefix ++ v) ≡ true
unfolding is_emulation
is_emulation-prefix v = ground (arith, has_prefix-append emulated_prefix v)

any-snoc :
    (args : List Text) (a : Text) → is_emulation a ≡ true → any is_emulation (args ++ a ∷ []) ≡ true
any-snoc [] a h = ground arith
any-snoc (x ∷ args) a h = ground (arith, any-snoc args a h)

with_emulation-named :
    (env : Env) (file : Option Text) (args : List Text)
    → any is_emulation args ≡ true
    → with_emulation env file args ≡ ok args
unfolding with_emulation
with_emulation-named env file args h = ground arith

Result-cases {ℓ κ} :
    {E : Type ℓ} {A : Type κ} (r : Result E A) → ((a : A) × (r ≡ ok a)) ⊎ ((e : E) × (r ≡ err e))
Result-cases (ok a) = inl (a, refl)
Result-cases (err e) = inr (e, refl)

-- What withEmulation returns names an emulated version, is the caller's arguments with at most one
-- more behind them, and is returned as it stands when withEmulation sees it again.
pub with_emulation_lem :
    (env : Env) (file : Option Text) (args out : List Text)
    → with_emulation env file args ≡ ok out
    → (any is_emulation out ≡ true)
      × ((out ≡ args)
          ⊎ ((v : Text) × (xp_minor env file ≡ ok v) × (out ≡ args ++ (emulated_prefix ++ v) ∷ [])))
      × (with_emulation env file out ≡ ok out)
unfolding with_emulation
with_emulation_lem env file args out h = elim (Bool-cases (any is_emulation args)) [
  | inl named ↦
      let same : out ≡ args = ground arith in
      let out_named = ap (any is_emulation) same ∙ named in
      (out_named, inl same, with_emulation-named env file out out_named)
  | inr bare ↦ elim (Result-cases (xp_minor env file)) [
    | inr (e, failure) ↦ absurd (ground arith)
    | inl (v, minor) ↦
        let more : out ≡ args ++ (emulated_prefix ++ v) ∷ [] = ground arith in
        let out_named =
          ap (any is_emulation) more
          ∙ any-snoc args (emulated_prefix ++ v) (is_emulation-prefix v) in
        (out_named, inr (v, minor, more), with_emulation-named env file out out_named)
  ]
]
