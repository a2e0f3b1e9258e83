-- ===== src/Controller/Relationships/Graph/Edges.antt =====
-- The talks-to edges of a workload: which Services have one.
use kyvernetria.Text.{Text, text_eq, text_eq_iff}
use kyvernetria.Controller.Relationships.{Token}
use kyvernetria.Controller.Relationships.Index.{Service, lookup}
use kyvernetria.Controller.Relationships.Graph.{
  Relationship, Workload, Labels, same_service, is_served, serves_workload, met, talks,
}
use kyvernetria.Prelude.{
  ℕ, ◌≡◌, refl, ap, ◌∙◌, Bool, true, false, not, ◌&&◌, ◌||◌, List, [], ◌∷◌, Option, none, some, any,
  any-append, count, count-append, count-none, ◌≤◌, arith, Bool-cases, inl, inr,
}

abbrev pub edge_to : Service → Relationship → Bool
edge_to s r = text_eq s.scope r.to.scope && text_eq s.name r.to.name

module _ (wide : ℕ → ℕ) (matches : Labels → Labels → Bool) where
  abbrev pub means : Service → Option Service → Bool
  means s none = false
  means s (some t) = same_service wide matches s t

  -- Services of one namespace and name are seen and served alike.
  same_service-eq :
      (s t : Service)
      → same_service wide matches s t ≡ true
      → (s.scope ≡ t.scope) × (s.name ≡ t.name)
  unfolding same_service
  same_service-eq s t h = ground (arith, h, text_eq_iff s.scope t.scope, text_eq_iff s.name t.name)

  seen-same :
      (s t : Service) (seen : List Service)
      → same_service wide matches s t ≡ true
      → any (same_service wide matches s) seen ≡ any (same_service wide matches t) seen
  unfolding same_service
  seen-same s t seen h =
      let (scope, name) = same_service-eq s t h in
      ap (λ (c : Text). any (λ (u : Service). text_eq c u.scope && text_eq s.name u.name) seen)
        scope
      ∙ ap (λ (n : Text). any (λ (u : Service). text_eq t.scope u.scope && text_eq n u.name) seen)
          name

  served-same :
      (services : List Service) (w : Workload) (s t : Service)
      → same_service wide matches s t ≡ true
      → is_served wide matches services s w ≡ is_served wide matches services t w
  unfolding same_service is_served
  served-same services w s t h =
      let (scope, name) = same_service-eq s t h in
      ap
        (λ (c : Text).
          any
            (λ (u : Service).
              (text_eq u.scope c && text_eq u.name s.name) && serves_workload wide matches u w)
            services)
        scope
      ∙ ap
          (λ (n : Text).
            any
              (λ (u : Service).
                (text_eq u.scope t.scope && text_eq u.name n) && serves_workload wide matches u w)
              services)
          name

  -- What one token adds, and what it leaves to be found.
  met-edges :
      (services : List Service) (w : Workload) (t : Token) (s : Service) (seen : List Service)
      (found : Option Service)
      → (any (edge_to s) (met wide matches services w t seen found).0 ≡ (
          means s found
          && (not (is_served wide matches services s w)
              && not (any (same_service wide matches s) seen))))
        × (any (same_service wide matches s) (met wide matches services w t seen found).1
            ≡ (means s found || any (same_service wide matches s) seen))
  unfolding same_service
  met-edges services w t s seen none = (refl, refl)
  met-edges services w t s seen (some u) = elim (Bool-cases (same_service wide matches s u)) [
    | inl same ↦ ground (arith, same, seen-same s u seen same, served-same services w s u same)
    | inr other ↦ ground (arith, other)
  ]

  talks-edges :
      (services : List Service) (w : Workload) (ts : List Token) (s : Service) (seen : List Service)
      → any (edge_to s) (talks wide matches services w ts seen) ≡ (
          any (λ t. means s (lookup services t w.ref.scope)) ts
          && (not (is_served wide matches services s w)
              && not (any (same_service wide matches s) seen)))
  unfolding talks
  talks-edges services w [] s seen = refl
  talks-edges services w (t ∷ ts) s seen =
      let found = lookup services t w.ref.scope in
      let step = met wide matches services w t seen found in
      let (now, after) = met-edges services w t s seen found in
      any-append (edge_to s) step.0 (talks wide matches services w ts step.1)
      ∙ ground (arith, now, after, talks-edges services w ts s step.1)

  met-one :
      (services : List Service) (w : Workload) (t : Token) (s : Service) (seen : List Service)
      (found : Option Service)
      → count (edge_to s) (met wide matches services w t seen found).0 ≤ 1
  met-one services w t s seen none = omega arith
  met-one services w t s seen (some u) = ground arith

  talks-one :
      (services : List Service) (w : Workload) (ts : List Token) (s : Service) (seen : List Service)
      → count (edge_to s) (talks wide matches services w ts seen) ≤ 1
  unfolding talks
  talks-one services w [] s seen = omega arith
  talks-one services w (t ∷ ts) s seen =
      let found = lookup services t w.ref.scope in
      let step = met wide matches services w t seen found in
      let rest = talks wide matches services w ts step.1 in
      let (now, after) = met-edges services w t s seen found in
      let later = talks-edges services w ts s step.1 in
      ground (
        arith,
        now,
        after,
        later,
        count-append (edge_to s) step.0 rest,
        count-none (edge_to s) step.0,
        count-none (edge_to s) rest,
        met-one services w t s seen found,
        talks-one services w ts s step.1,
      )

  -- A workload talks to a Service if and only if one of the host names in its texts means the Service, and the
  -- Service does not serve the workload; there is one edge at most.
  pub talks-exact :
      (services : List Service) (w : Workload) (ts : List Token) (s : Service)
      → (any (edge_to s) (talks wide matches services w ts []) ≡ (
          any (λ t. means s (lookup services t w.ref.scope)) ts
          && not (is_served wide matches services s w)))
        × (count (edge_to s) (talks wide matches services w ts []) ≤ 1)
  talks-exact services w ts s =
      (ground (arith, talks-edges services w ts s []), talks-one services w ts s [])
