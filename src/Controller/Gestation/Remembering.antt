-- ===== src/Controller/Gestation/Remembering.antt =====
-- kubernetes/overlay/pkg/kyvernetria/controller/gestation/memory.go: what a pass does with the records.
use kyvernetria.Text.Table.{value_at}
use kyvernetria.Text.{Text, text_eq}
use kyvernetria.Gestation.Memory.{
  Record, Json, Data, key_of, departed, records, put, bounded, max_records,
}
use kyvernetria.Gestation.Memory.Bound.{Stored, Orderly}
use kyvernetria.Gestation.Memory.Put.{put-Orderly}
use kyvernetria.Prelude.{
  ◌≡◌, ◌≤◌, sym, ap, subst, ◌∙◌, Bool, true, false, not, ◌||◌, List, [], ◌∷◌, Option, none, some,
  length, arith,
}

-- What is read of the memory during one pass, and whether it has to be saved.
pub record Memory : Type 0 where
  pub content : Data
  pub changed : Bool

-- The UID of the Deployment of a name, as the lister answers.
pub data Found : Type 0 where
  found : Text → Found
  not_found : Found
  unreadable : Found

module _ (json : Json) where
  unfoldable pub store : Memory → Record → Memory
  unfolding put
  store m r = record {
    content = (put json max_records m.content r).0;
    changed = m.changed || (put json max_records m.content r).1;
  }

  abbrev pub decode_raw : Option Text → Option Record
  decode_raw none = none
  decode_raw (some raw) = json.unmarshal raw

  abbrev pub earlier_of : Text → Text → Text
  earlier_of old new = elim (text_eq old []) [ true ↦ new | false ↦ old ]

  -- A birth and a departure that are on record are kept.
  abbrev pub merged : Option Record → Record → Record
  merged none r = r
  merged (some old) r = record r {
    born = earlier_of old.born r.born;
    left = earlier_of r.left old.left;
  }

  -- (*memory).put.
  unfoldable pub put_living : Memory → Record → Memory
  unfolding store value_at key_of
  put_living m r = store m (merged (decode_raw (value_at (key_of r) m.content)) r)

  abbrev pub closed : Memory → Text → Option Record → Memory
  closed m stamp none = m
  closed m stamp (some r) = elim (departed r) [
    | true ↦ m
    | false ↦ store m (record r { left = stamp })
  ]

  abbrev pub blank : Text → Text → Text → Record
  blank scope name uid = record {
    scope = scope;
    name = name;
    uid = uid;
    born = [];
    left = [];
    owners = [];
    dependencies = [];
    config_digest = [];
  }

  -- (*memory).depart, with the time as it is stamped.
  unfoldable pub depart : Memory → Text → Text → Text → Text → Memory
  unfolding store value_at key_of departed
  depart m scope name uid stamp =
      closed m stamp (decode_raw (value_at (key_of (blank scope name uid)) m.content))

  abbrev pub is_gone : Text → Found → Bool
  is_gone uid (found other) = not (text_eq other uid)
  is_gone uid not_found = true
  is_gone uid unreadable = false

  unfoldable pub close_all : (Text → Text → Found) → Text → List Record → Memory → Memory
  unfolding depart departed
  close_all lookup stamp [] m = m
  close_all lookup stamp (r ∷ rs) m = elim (not (departed r)) [
    | false ↦ close_all lookup stamp rs m
    | true ↦ elim (is_gone r.uid (lookup r.scope r.name)) [
      | true ↦ close_all lookup stamp rs (depart m r.scope r.name r.uid stamp)
      | false ↦ close_all lookup stamp rs m
    ]
  ]

  -- closeDeparted.
  unfoldable pub close_departed : (Text → Text → Found) → Text → Memory → Memory
  unfolding close_all records
  close_departed lookup stamp m = close_all lookup stamp (records json m.content) m

  -- The record of a service holds the birth and the departure of an old one, in a memory in order.
  abbrev pub Kept : Record → Record → Memory → Type 0
  Kept r old m =
      (s : Record) × (value_at (key_of (bounded r)) m.content ≡ some (json.marshal s))
      × (s.born ≡ old.born)
      × (s.left ≡ old.left)
      × Orderly json m.content
      × (length m.content ≤ max_records)

  module _ (law : (r : Record) → json.unmarshal (json.marshal r) ≡ some r) where
    -- Keeping a living service's record current never changes its birth or undoes its departure.
    pub put_living-keeps :
        (m : Memory) (r old : Record)
        → Orderly json m.content
        → length m.content ≤ max_records
        → text_eq (bounded r).name [] ≡ false
        → key_of r ≡ key_of old
        → Stored json m.content old
        → text_eq old.born [] ≡ false
        → r.left ≡ []
        → Kept r old (put_living m r)
    unfolding put_living store bounded key_of
    put_living-keeps m r old o small n k (raw, at, e) born alive =
        let found : decode_raw (value_at (key_of r) m.content) ≡ some old =
          ap decode_raw (ap (λ (j : Text). value_at j m.content) k ∙ at) ∙ e in
        let both = merged (some old) r in
        let (ordered, fits, held) =
          put-Orderly json max_records (omega arith) law both m.content n o small in
        subst (Kept r old) (sym (ap (λ (f : Option Record). store m (merged f r)) found)) (
          bounded both,
          held,
          ap (λ (b : Bool). elim b [ true ↦ r.born | false ↦ old.born ]) born,
          ap (λ (t : Text). earlier_of t old.left) alive,
          ordered,
          fits,
        )
