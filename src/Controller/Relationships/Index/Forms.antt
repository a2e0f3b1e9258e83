-- ===== src/Controller/Relationships/Index/Forms.antt =====
-- The DNS names of a Service: its forms mean the same.
use kyvernetria.Text.{Text, codes, text_eq}
use kyvernetria.Text.Split.{Lacks, has_prefix}
use kyvernetria.Text.Pieces.{before_text, trim_suffix, occurs, cons_some}
use kyvernetria.Controller.Relationships.{Token}
use kyvernetria.Controller.Relationships.Index.{
  Service, last_with, qualified_name, without_domain, lookup,
}
use kyvernetria.Prelude.{
  ◌≡◌, refl, sym, ap, ◌∙◌, true, false, List, [], ◌∷◌, ◌++◌, Option, none, some, arith, append-nil,
}

occurs-dot : (a b : Text) → occurs 46 (a ++ 46 ∷ b) ≡ true
unfolding occurs
occurs-dot [] b = refl
occurs-dot (c ∷ a) b = ground (arith, occurs-dot a b)

-- Text without a dot in front of a dot: the search for ".svc." goes past it.
before_text-some :
    (a t b : Text)
    → Lacks 46 a
    → before_text (codes ".svc.") t ≡ some b
    → before_text (codes ".svc.") (a ++ t) ≡ some (a ++ b)
unfolding before_text has_prefix
before_text-some [] t b h e = e
before_text-some (c ∷ a) t b h e = ground (arith, h.0, before_text-some a t b h.1 e)

before_text-none :
    (a t : Text)
    → Lacks 46 a
    → before_text (codes ".svc.") t ≡ none
    → before_text (codes ".svc.") (a ++ t) ≡ none
unfolding before_text has_prefix
before_text-none [] t h e = e
before_text-none (c ∷ a) t h e = ground (arith, h.0, before_text-none a t h.1 e)

-- A namespace that is not svc does not look like the end of ".svc.".
not_svc :
    (scope r : Text)
    → Lacks 46 scope
    → text_eq scope (codes "svc") ≡ false
    → has_prefix (scope ++ 46 ∷ r) (codes "svc.") ≡ false
unfolding has_prefix
not_svc [] r l h = refl
not_svc (a ∷ []) r l h = ground arith
not_svc (a ∷ b ∷ []) r l h = ground arith
not_svc (a ∷ b ∷ c ∷ []) r l h = ground (arith, h)
not_svc (a ∷ b ∷ c ∷ d ∷ s) r l h = ground (arith, l)

before_text-domain :
    (scope d : Text)
    → Lacks 46 scope
    → text_eq scope (codes "svc") ≡ false
    → before_text (codes ".svc.") (46 ∷ (scope ++ (codes ".svc." ++ d))) ≡ some (46 ∷ scope)
unfolding before_text has_prefix
before_text-domain scope d l h =
    rw (not_svc scope (codes "svc." ++ d) l h, before_text)
      (ap (cons_some 46)
        (before_text-some scope (codes ".svc." ++ d) [] l refl ∙ ap some (append-nil scope)))

-- No ".svc." in a name that ends with its namespace, or with the namespace and ".svc".
no_svc :
    (scope : Text)
    → Lacks 46 scope
    → text_eq scope (codes "svc") ≡ false
    → has_prefix scope (codes "svc.") ≡ false
unfolding has_prefix
no_svc [] l h = refl
no_svc (a ∷ []) l h = ground arith
no_svc (a ∷ b ∷ []) l h = ground arith
no_svc (a ∷ b ∷ c ∷ []) l h = ground arith
no_svc (a ∷ b ∷ c ∷ d ∷ s) l h = ground (arith, l)

before_text-plain : (s : Text) → Lacks 46 s → before_text (codes ".svc.") s ≡ none
unfolding before_text has_prefix
before_text-plain [] l = refl
before_text-plain (c ∷ s) l = ground (arith, l.0, before_text-plain s l.1)

before_text-qualified :
    (scope : Text)
    → Lacks 46 scope
    → text_eq scope (codes "svc") ≡ false
    → before_text (codes ".svc.") (46 ∷ scope) ≡ none
unfolding before_text has_prefix
before_text-qualified scope l h =
    rw (no_svc scope l h) (ap (cons_some 46) (before_text-plain scope l))

trim_suffix-plain :
    (a t : Text)
    → Lacks 46 a
    → trim_suffix (codes ".svc") (a ++ t) ≡ a ++ trim_suffix (codes ".svc") t
unfolding trim_suffix
trim_suffix-plain [] t l = refl
trim_suffix-plain (c ∷ a) t l = ground (arith, l.0, trim_suffix-plain a t l.1)

trim_suffix-qualified :
    (scope : Text)
    → Lacks 46 scope
    → text_eq scope (codes "svc") ≡ false
    → trim_suffix (codes ".svc") (46 ∷ scope) ≡ 46 ∷ scope
unfolding trim_suffix
trim_suffix-qualified scope l h = rw h (
    ap (◌∷◌ 46) (
      ap (trim_suffix (codes ".svc")) (sym (append-nil scope))
      ∙ trim_suffix-plain scope [] l
      ∙ append-nil scope))

abbrev pub host_token_of : Text → Token
host_token_of host = record { host = host; strong = true }

lookup-qualified :
    (services : List Service) (host from : Text) (before : Option Text)
    → occurs 46 host ≡ true
    → before_text (codes ".svc.") host ≡ before
    → lookup services (host_token_of host) from
      ≡ last_with qualified_name (without_domain host before) services
unfolding lookup
lookup-qualified services host from before o e =
    rw (o, lookup) (ap (λ b. last_with qualified_name (without_domain host b) services) e)

-- The name of a Service with its namespace, and the name in the cluster's domain, are found from any
-- namespace as the last Service of that name and namespace, unless the namespace is called svc.
pub lookup-forms :
    (services : List Service) (name scope domain from : Text)
    → Lacks 46 name
    → Lacks 46 scope
    → text_eq scope (codes "svc") ≡ false
    → (lookup services (host_token_of (name ++ 46 ∷ scope)) from
        ≡ last_with qualified_name (name ++ 46 ∷ scope) services)
      × (lookup services (host_token_of (name ++ 46 ∷ (scope ++ (codes ".svc." ++ domain)))) from
          ≡ last_with qualified_name (name ++ 46 ∷ scope) services)
lookup-forms services name scope domain from ln ls h = (
  lookup-qualified services (name ++ 46 ∷ scope) from none (occurs-dot name scope)
        (before_text-none name (46 ∷ scope) ln (before_text-qualified scope ls h))
      ∙ ap (λ (k : Text). last_with qualified_name k services)
          (trim_suffix-plain name (46 ∷ scope) ln
            ∙ ap (λ (t : Text). name ++ t) (trim_suffix-qualified scope ls h)),
  lookup-qualified services (name ++ 46 ∷ (scope ++ (codes ".svc." ++ domain))) from
      (some (name ++ 46 ∷ scope)) (occurs-dot name (scope ++ (codes ".svc." ++ domain)))
      (before_text-some name (46 ∷ (scope ++ (codes ".svc." ++ domain))) (46 ∷ scope) ln
        (before_text-domain scope domain ls h)),
)
