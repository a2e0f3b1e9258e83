-- ===== src/Controller/Gestation/Signs/Events.antt =====
-- The events that signs counts: in which pages they come does not matter, and the controller's own do not count.
use kyvernetria.Gestation.Apgar.{Signs}
use kyvernetria.Controller.Gestation.Signs.{
  Pod, Event, Newborn, Service, is_own, is_skipped, event_signs, page_signs, signs, names_of,
  is_reason,
}
use kyvernetria.Prelude.Int.{ℤ}
use kyvernetria.Prelude.{
  ◌≡◌, refl, sym, ap, ◌∙◌, true, false, not, List, [], ◌∷◌, ◌++◌, map, String, Option, none, some,
  keep, Bool-cases, inl, inr, arith,
}

-- The events of all pages.
abbrev pub all_events : List (List Event) → List Event
all_events [] = []
all_events (es ∷ pages) = es ++ all_events pages

abbrev pub others : List Event → List Event
others es = keep (λ e. not (is_own e)) es

others-own : (e : Event) (es : List Event) → is_own e ≡ true → others (e ∷ es) ≡ others es
others-own e es own = ground (arith, own)

others-other : (e : Event) (es : List Event) → is_own e ≡ false → others (e ∷ es) ≡ e ∷ others es
others-other e es other = ground (arith, other)

module _ (b : Newborn) (names : List String) where
  event_signs-append :
      (es fs : List Event) (s : Signs)
      → event_signs b names (es ++ fs) s ≡ event_signs b names fs (event_signs b names es s)
  unfolding event_signs
  event_signs-append [] fs s = refl
  event_signs-append (e ∷ es) fs s = event_signs-append es fs _

  page_signs-map :
      (pages : List (List Event)) (s : Signs)
      → page_signs b names (map some pages) s ≡ some (event_signs b names (all_events pages) s)
  unfolding page_signs event_signs
  page_signs-map [] s = refl
  page_signs-map (es ∷ pages) s =
      page_signs-map pages (event_signs b names es s)
      ∙ ap some (sym (event_signs-append es (all_events pages) s))

  own-is_skipped : (e : Event) → is_own e ≡ true → is_skipped b names e ≡ true
  unfolding is_skipped
  own-is_skipped e own = ground (arith, own)

  event_signs-own :
      (e : Event) (es : List Event) (s : Signs)
      → is_own e ≡ true
      → event_signs b names (e ∷ es) s ≡ event_signs b names es s
  unfolding event_signs
  event_signs-own e es s own = rw (own-is_skipped e own) refl

  event_signs-others :
      (es : List Event) (s : Signs) → event_signs b names (others es) s ≡ event_signs b names es s
  unfolding event_signs
  event_signs-others [] s = refl
  event_signs-others (e ∷ es) s = elim (Bool-cases (is_own e)) [
    | inl own ↦
        ap (λ l. event_signs b names l s) (others-own e es own)
        ∙ event_signs-others es s
        ∙ sym (event_signs-own e es s own)
    | inr other ↦
        ap (λ l. event_signs b names l s) (others-other e es other) ∙ event_signs-others es _
  ]

-- The signs of a birth, and with them its score, do not depend on the events that the controller itself has
-- sent, nor on how the API server cuts the list of the events into pages.
pub signs-others :
    (desired : ℤ) (found : Option (Option Newborn)) (pods : Option (List Pod))
    (pages : List (List Event)) (services : Option (List Service))
    → signs desired found pods (map some pages) services
      ≡ signs desired found pods (some (others (all_events pages)) ∷ []) services
unfolding signs page_signs
signs-others desired none pods pages services = refl
signs-others desired (some none) pods pages services = refl
signs-others desired (some (some b)) none pages services = refl
signs-others desired (some (some b)) (some ps) pages services =
    let born = keep (λ (p : Pod). is_reason b.uid p.controller) ps in
    rw
      (
        page_signs-map b (names_of born) pages,
        event_signs-others b (names_of born) (all_events pages),
      )
      refl
