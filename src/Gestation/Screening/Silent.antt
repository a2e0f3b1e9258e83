-- ===== src/Gestation/Screening/Silent.antt =====
-- Screen and Summarize together: what it means that a screening has nothing to warn of.
use kyvernetria.Text.{Text}
use kyvernetria.Gestation.Screening.{
  Finding, finding, warn, info, clear, probes, requests, deployment, Template, Container,
  screen_references, secret_names, config_map_names, missing_names, unread_names, judged_references,
  all_containers,
}
use kyvernetria.Gestation.Screening.Names.{append-nil_left}
use kyvernetria.Gestation.Screening.Room.{ResourceList, screen_volumes}
use kyvernetria.Gestation.Screening.Summary.{
  if_any, or_clear, names_without, screen_probes, screen_requests, screen_pdb, states_requests,
  Facts, size_findings, reservation_findings, image_findings, template_findings, screen,
  is_concern_result, concerns, summarize,
}
use kyvernetria.Prelude.Int.{ℤ}
use kyvernetria.Prelude.{
  ◌≡◌, ◌≢◌, refl, sym, ◌∙◌, Bool, true, false, List, [], ◌∷◌, ◌++◌, Option, none, some, arith, any,
  any-append, All, Bool-cases, inl, inr,
}

abbrev pub is_concern : Finding → Bool
is_concern f = is_concern_result f.result

-- No finding that Summarize would say.
abbrev pub Silent : List Finding → Type 0
Silent fs = any is_concern fs ≡ false

summarize-any : (fs : List Finding) → (summarize fs).0 ≡ any is_concern fs
unfolding summarize concerns
summarize-any [] = refl
summarize-any (f ∷ fs) = ground (arith, summarize-any fs)

Silent-append : (fs gs : List Finding) → Silent (fs ++ gs) → Silent fs × Silent gs
Silent-append fs gs h = ground (arith, any-append is_concern fs gs, h)

names_without-nil :
    (has : Container → Bool) (cs : List Container)
    → names_without has cs ≡ []
    → All (λ c. has c ≡ true) cs
names_without-nil has [] h = tt
names_without-nil has (c ∷ cs) h = elim (Bool-cases (has c)) [
  | inl good ↦ (good, names_without-nil has cs (ground (arith, good, h)))
  | inr bad ↦ absurd (ground (arith, bad, h))
]

Silent-or_clear : (f : Finding) (fs : List Finding) → Silent (or_clear f fs) → Silent fs
Silent-or_clear f [] h = refl
Silent-or_clear f (g ∷ gs) h = h

Silent-if_any :
    (f : Finding) (ns : List Text) → is_concern f ≡ true → Silent (if_any f ns) → ns ≡ []
Silent-if_any f [] c h = refl
Silent-if_any f (n ∷ ns) c h = absurd (ground (arith, c, h))

Silent-screen_probes :
    (t : Template) → Silent (screen_probes t) → All (λ c. c.readiness_probe ≡ true) t.containers
unfolding screen_probes
Silent-screen_probes t h =
    let ready =
      if_any (finding probes warn []) (names_without (λ c. c.readiness_probe) t.containers) in
    let live =
      if_any (finding probes info []) (names_without (λ c. c.liveness_probe) t.containers) in
    let (s, _) =
      Silent-append ready live (Silent-or_clear (finding probes clear []) (ready ++ live) h) in
    names_without-nil (λ c. c.readiness_probe) t.containers
      (Silent-if_any (finding probes warn []) (names_without (λ c. c.readiness_probe) t.containers)
        refl s)

Silent-screen_requests :
    (t : Template) → Silent (screen_requests t) → All (λ c. states_requests c ≡ true) t.containers
unfolding screen_requests
Silent-screen_requests t h =
    let stated = names_without states_requests t.containers in
    names_without-nil states_requests t.containers (
      Silent-if_any (finding requests warn []) stated refl
        (Silent-or_clear (finding requests clear []) (if_any (finding requests warn []) stated) h))

judged_references-missing :
    (missing errs all : List Text) → Silent (judged_references missing errs all) → missing ≡ []
judged_references-missing [] errs all h = refl
judged_references-missing (m ∷ ms) errs all h = absurd (cc h)

-- What a quiet screening of a template says: nothing that the pods need is known to be missing, every
-- container has a readiness probe, and every container states its requests.
abbrev pub Sound : Facts → Template → Type 0
Sound l t =
    (missing_names l.secrets (secret_names t) ≡ [])
    × (missing_names l.config_maps (config_map_names t) ≡ [])
    × All (λ c. c.readiness_probe ≡ true) t.containers
    × All (λ c. states_requests c ≡ true) t.containers

template_findings-Sound :
    (l : Facts) (size : Option ResourceList) (t : Template)
    → Silent (template_findings l size (some t))
    → Sound l t
unfolding screen_references
template_findings-Sound l size t h =
    let refs = screen_references l.secrets l.config_maps t in
    let volumes = screen_volumes l.claims l.classes t in
    let last = screen_pdb l.budgets in
    let images = image_findings l (all_containers t) in
    let first = finding deployment clear [] ∷ reservation_findings t size in
    let (h1, _) =
      Silent-append (first ++ images ++ refs ++ volumes ++ screen_probes t ++ screen_requests t)
        last h in
    let (h2, q) =
      Silent-append (first ++ images ++ refs ++ volumes ++ screen_probes t) (screen_requests t)
        h1 in
    let (h3, p) = Silent-append (first ++ images ++ refs ++ volumes) (screen_probes t) h2 in
    let (h4, _) = Silent-append (first ++ images ++ refs) volumes h3 in
    let (_, r) = Silent-append (first ++ images) refs h4 in
    let (ms, mc) =
      append-nil_left (missing_names l.secrets (secret_names t))
        (missing_names l.config_maps (config_map_names t))
        (judged_references-missing
          (missing_names l.secrets (secret_names t)
            ++ missing_names l.config_maps (config_map_names t))
          (unread_names l.secrets (secret_names t)
            ++ unread_names l.config_maps (config_map_names t))
          (secret_names t ++ config_map_names t) r) in
    (ms, mc, Silent-screen_probes t p, Silent-screen_requests t q)

-- A screening that warns of nothing could read the size that was asked for, and found no Secret or ConfigMap
-- missing, and no container without a readiness probe or without its requests.
pub screen-silent :
    (replicas : ℤ) (size : Option ResourceList) (placenta : ResourceList) (t : Template) (l : Facts)
    → (summarize (screen replicas size placenta (some t) l)).0 ≡ false
    → (size ≢ none) × Sound l t
unfolding screen
screen-silent replicas size placenta t l h =
    let (s, u) =
      Silent-append (size_findings replicas placenta l size) (template_findings l size (some t))
        (sym (summarize-any (screen replicas size placenta (some t) l)) ∙ h) in
    (λ e. absurd (cc (e, s)), template_findings-Sound l size t u)
