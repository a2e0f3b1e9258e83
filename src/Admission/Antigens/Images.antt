-- ===== src/Admission/Antigens/Images.antt =====
-- Which images FloatingTag takes for pinned.
use kyvernetria.Admission.Antigens.{floating_tag}
use kyvernetria.Text.Pieces.{after_last, after_last-none, after_last-append}
use kyvernetria.Text.{Text, codes, text_eq}
use kyvernetria.Text.Split.{Lacks}
use kyvernetria.Prelude.{
  ℕ, ◌≡◌, ◌⊎◌, inl, inr, refl, false, [], ◌∷◌, ◌++◌, none, some, arith, any, ◌==◌, Bool-cases,
}

-- Cutting off a path in front leaves what ends a text, if no slash is in it.
after_last-end :
    (sep : ℕ) (p t : Text)
    → Lacks sep t
    → (after_last sep (p ++ t) ≡ none) ⊎ ((q : Text) × (after_last sep (p ++ t) ≡ some (q ++ t)))
unfolding after_last
after_last-end sep [] t h = inl (after_last-none sep t h)
after_last-end sep (c ∷ p) t h = elim (after_last-end sep p t h) [
  | inr (q, e) ↦ rw e (inr (q, refl))
  | inl e ↦ rw e (elim (Bool-cases (c == sep)) [
    | inl same ↦ rw same (inr (p, refl))
    | inr other ↦ rw other (inl refl)
  ])
]

-- Without a digest, an image with a tag floats exactly when the tag is latest, also where a registry's port
-- stands in front.
pub floating_tag-tagged :
    (name tag : Text)
    → any (◌==◌ 64) (name ++ 58 ∷ tag) ≡ false
    → Lacks 47 tag
    → Lacks 58 tag
    → floating_tag (name ++ 58 ∷ tag) ≡ text_eq tag (codes "latest")
unfolding floating_tag
floating_tag-tagged name tag digest slashes colons =
    rw digest (elim (after_last-end 47 name (58 ∷ tag) ((λ e. ground arith), slashes)) [
      | inl e ↦ rw (e, after_last-append 58 name tag colons) refl
      | inr (q, e) ↦ rw (e, after_last-append 58 q tag colons) refl
    ])
