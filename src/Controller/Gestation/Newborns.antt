-- ===== src/Controller/Gestation/Newborns.antt =====
-- kubernetes/overlay/pkg/kyvernetria/controller/gestation/care.go: the annotation of a namespace that lists its
-- services in newborn care, and the measurements of a service.
mod Examples
use kyvernetria.Text.{Text, text_eq, text_ltb, text_eq_refl}
use kyvernetria.Text.Fields.{trim_space}
use kyvernetria.Prelude.Sort.{sort_by}
use kyvernetria.Prelude.{
  ◌≡◌, ◌≢◌, Bool, true, false, not, ◌&&◌, ◌||◌, List, [], ◌∷◌, ◌++◌, Option, none, some, keep,
  str_eq, any, Bool-cases, inl, inr, String,
}

-- NewbornEntry, with both of its fields as texts.
pub record Entry : Type 0 where
  pub selector : Text
  pub priority_class : Text

abbrev pub by_selector : Entry → Entry → Bool
by_selector a b = text_ltb a.selector b.selector

unfoldable pub sort_entries : List Entry → List Entry
unfolding sort_by text_ltb
sort_entries es = sort_by by_selector es

-- encoding/json on lists of entries.
pub record Json : Type 0 where
  pub marshal : List Entry → Text
  pub unmarshal : Text → Option (List Entry)

-- What is read of a Gestation: whether it is in care, the selector of its birth, and the class of its tier.
pub record Cared : Type 0 where
  pub scope : Text
  pub in_care : Bool
  pub selector : Option Text
  pub class : Text

pub record Namespace : Type 0 where
  pub name : Text
  pub annotation : Text

abbrev pub entry_if : Text → Option Text → List Entry
entry_if class none = []
entry_if class (some selector) = record { selector = selector; priority_class = class } ∷ []

abbrev pub entry_of : Cared → List Entry
entry_of g = elim (g.in_care && not (text_eq g.class [])) [
  | true ↦ entry_if g.class g.selector
  | false ↦ []
]

-- desired[namespace].
unfoldable pub desired : List Cared → Text → List Entry
desired [] scope = []
desired (g ∷ gs) scope = elim (text_eq g.scope scope) [
  | true ↦ entry_of g ++ desired gs scope
  | false ↦ desired gs scope
]

module _ (json : Json) where
  -- EncodeNewborns and DecodeNewborns on the text of the annotation.
  unfoldable pub encode_text : List Entry → Text
  unfolding sort_entries
  encode_text [] = []
  encode_text (e ∷ es) = json.marshal (sort_entries (e ∷ es))

  unfoldable pub decode_text : Text → Option (List Entry)
  unfolding trim_space
  decode_text raw = elim (text_eq (trim_space raw) []) [
    | true ↦ some []
    | false ↦ json.unmarshal raw
  ]

  -- patchNewborns: the namespace afterwards, and whether there was an error. `fails` tells of a patch whether
  -- it fails.
  unfoldable pub patch_newborns : (Text → Text → Bool) → Namespace → Text → Namespace × Bool
  patch_newborns fails ns value = elim (text_eq ns.annotation value || fails ns.name value) [
    | true ↦ (ns, not (text_eq ns.annotation value))
    | false ↦ (record ns { annotation = value }, false)
  ]

  abbrev pub or_none : Option (List Entry) → List Entry
  or_none none = []
  or_none (some es) = es

  abbrev pub new_entry : Text → Text → List Entry
  new_entry selector class = elim (text_eq class []) [
    | true ↦ []
    | false ↦ record { selector = selector; priority_class = class } ∷ []
  ]

  -- setNewborn, of a namespace as it is read.
  unfoldable pub set_newborn : (Text → Text → Bool) → Namespace → Text → Text → Namespace × Bool
  unfolding decode_text encode_text patch_newborns
  set_newborn fails ns selector class = patch_newborns fails ns (
      encode_text (
        keep (λ (e : Entry). not (text_eq e.selector selector))
          (or_none (decode_text ns.annotation))
        ++ new_entry selector class))

  -- syncNewborns.
  unfoldable pub sync_newborns :
      (Text → Text → Bool) → List Cared → List Namespace → List Namespace × Bool
  unfolding desired encode_text patch_newborns
  sync_newborns fails gs [] = ([], false)
  sync_newborns fails gs (ns ∷ nss) =
      let done = patch_newborns fails ns (encode_text (desired gs ns.name)) in
      let rest = sync_newborns fails gs nss in (done.0 ∷ rest.0, done.1 || rest.1)

  module _ (law : (es : List Entry) → json.unmarshal (json.marshal es) ≡ some es)
      (not_blank : (es : List Entry) → text_eq (trim_space (json.marshal es)) [] ≡ false) where
    -- A namespace whose annotation lists the services in care in it, and no other.
    abbrev pub Listed : List Cared → Namespace → Type 0
    Listed gs ns =
        (decode_text ns.annotation ≡ some (sort_entries (desired gs ns.name)))
        × (ns.annotation ≡ encode_text (desired gs ns.name))
