-- ===== src/Text/Order.antt =====
-- The order of Go's strings: it is asymmetric, and not being before passes on.
use kyvernetria.Text.{Text, text_ltb}
use kyvernetria.Prelude.{◌≡◌, refl, true, false, [], ◌∷◌, arith}

pub text_ltb_asym : (s t : Text) → text_ltb s t ≡ true → text_ltb t s ≡ false
unfolding text_ltb
text_ltb_asym [] [] h = absurd (cc h)
text_ltb_asym [] (d ∷ t) h = refl
text_ltb_asym (c ∷ s) [] h = absurd (cc h)
text_ltb_asym (c ∷ s) (d ∷ t) h = ground (arith, h, text_ltb_asym s t)

pub text_ltb_trans :
    (s t u : Text) → text_ltb t s ≡ false → text_ltb u t ≡ false → text_ltb u s ≡ false
unfolding text_ltb
text_ltb_trans [] t [] h k = refl
text_ltb_trans [] [] (e ∷ u) h k = refl
text_ltb_trans [] (d ∷ t) (e ∷ u) h k = refl
text_ltb_trans (c ∷ s) [] u h k = absurd (cc h)
text_ltb_trans (c ∷ s) (d ∷ t) [] h k = absurd (cc k)
text_ltb_trans (c ∷ s) (d ∷ t) (e ∷ u) h k = ground (arith, h, k, text_ltb_trans s t u)
