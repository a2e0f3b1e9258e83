-- ===== src/Controller/Relationships.antt =====
-- kubernetes/overlay/pkg/kyvernetria/controller/relationships/relationships.go: the host names in a text.
-- The services that they mean are in Relationships/Index, the edges in Relationships/Graph.
pub mod Index
pub mod Graph
pub mod Writes
mod Examples
use kyvernetria.Text.{Text, codes, text_eq}
use kyvernetria.Text.Case.{to_lower, to_upper}
use kyvernetria.Text.Split.{cut}
use kyvernetria.Text.Pieces.{
  after_text, before_any, after_last, trim_suffix, occurs, fields_by, has_suffix,
}
use kyvernetria.Prelude.{
  ℕ, Bool, true, false, not, ◌&&◌, ◌||◌, List, [], ◌∷◌, ◌++◌, Option, none, some, ◌==◌, leb, any,
  if◌then◌else◌,
}

-- token.
pub record Token : Type 0 where
  pub host : Text
  pub strong : Bool

-- isDigits and isHostName.
unfoldable pub is_digits : Text → Bool
is_digits [] = false
is_digits (c ∷ s) = not (any (λ d. not (leb 48 d && leb d 57)) (c ∷ s))

abbrev pub is_host_char : ℕ → Bool
is_host_char c = (leb 97 c && leb c 122) || ((leb 48 c && leb c 57) || (c == 45 || c == 46))

unfoldable pub is_host_name : Text → Bool
is_host_name s = not (any (λ c. not (is_host_char c)) s)

abbrev pub or_whole : Text → Option Text → Text
or_whole s none = s
or_whole s (some t) = t

abbrev pub named_host : Text → Bool → Option Token
named_host s strong = elim (text_eq s [] || not (is_host_name s)) [
  | true ↦ none
  | false ↦ some (record { host = s; strong = strong })
]

module _ (wide : ℕ → ℕ) where
  abbrev pub lowered : Text → Bool → Option Token
  lowered s strong = named_host (trim_suffix (codes ".") (to_lower wide s)) strong

  -- [user@]host[:port], with what the cut at the colon finds.
  abbrev pub without_port : Text → Bool → Option (Text × Text) → Option Token
  without_port s strong none = lowered s strong
  without_port s strong (some (host, port)) = elim (is_digits port) [
    | true ↦ lowered host true
    | false ↦ none
  ]

  -- hostOf; 47, 63 and 35 are the slash, the question mark and the number sign, 64 is the at sign, 58 the
  -- colon.
  unfoldable pub host_of : Text → Bool → Option Token
  unfolding before_any after_last cut is_digits is_host_name trim_suffix to_lower
  host_of s strong =
      let path = before_any (47 ∷ 63 ∷ 35 ∷ []) s in
      let host = or_whole path (after_last 64 path) in without_port host strong (cut 58 host)

  abbrev pub from_user : Text → Bool → Option Text → Option Token
  from_user f hostish none = host_of f hostish
  from_user f hostish (some t) = host_of t true

  abbrev pub from_scheme : Text → Bool → Option Text → Option Token
  from_scheme f hostish none = from_user f hostish (after_last 64 f)
  from_scheme f hostish (some t) = host_of t true

  -- hostToken.
  unfoldable pub host_token : Text → Bool → Option Token
  unfolding host_of after_text after_last
  host_token f hostish = from_scheme f hostish (after_text (codes "://") f)

  abbrev pub value_part : Text → Option (Text × Text) → Text
  value_part f none = f
  value_part f (some (key, value)) = elim (occurs 47 key) [ true ↦ f | false ↦ value ]

  abbrev pub add_token : Option Token → List Token → List Token
  add_token none ts = ts
  add_token (some t) ts = t ∷ ts

  -- The loop of hostTokens; 61 is the equals sign.
  unfoldable pub field_tokens : Bool → List Text → List Token
  unfolding host_token cut occurs
  field_tokens hostish [] = []
  field_tokens hostish (f ∷ fs) =
      add_token (host_token (value_part f (cut 61 f)) hostish) (field_tokens hostish fs)

  abbrev pub separates : ℕ → Bool
  separates c = any (λ d. c == d) (9 ∷ 10 ∷ 13 ∷ codes " ,;\"'()[]{}<>")

  -- hostTokens.
  unfoldable pub host_tokens : Text → Bool → List Token
  unfolding field_tokens fields_by
  host_tokens value hostish = field_tokens hostish (fields_by separates [] value)

  abbrev pub hostish_suffixes : List Text
  hostish_suffixes =
      codes "_HOST"
      ∷ codes "_HOSTS"
      ∷ codes "_URL"
      ∷ codes "_ADDR"
      ∷ codes "_ADDRESS"
      ∷ codes "_SERVICE"
      ∷ codes "_ENDPOINT"
      ∷ codes "_URI"
      ∷ []

  -- isHostishEnv.
  unfoldable pub is_hostish_env : Text → Bool
  unfolding has_suffix to_upper
  is_hostish_env name = any (λ s. has_suffix s (to_upper wide name)) hostish_suffixes
