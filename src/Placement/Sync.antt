-- ===== src/Placement/Sync.antt =====
-- kubernetes/overlay/pkg/kyvernetria/controller/placememory/controller.go: sync, its five attempts and the
-- guarded write, beside others that write the same object.
use kyvernetria.Text.{Text, text_eq}
use kyvernetria.Placement.{Holder, Running, recall, parse_holder, ReplicaSets}
use kyvernetria.Placement.Pods.{Placed, running_pods}
use kyvernetria.Prelude.{ℕ, zero, suc, ◌+◌, Bool, true, false, Option, none, some, ◌==◌, List}

-- A holder object: its resourceVersion, and the annotation, empty where it has none.
pub record Live : Type 0 where
  pub version : ℕ
  pub annotation : Text

-- The API server's copy, `none` when it is deleted.
abbrev pub Server : Type 0
Server = Option Live

pub data Answer : Type 0 where
  accepted : Answer
  conflict : Answer
  rejected : Answer

-- A merge patch with a resourceVersion: it replaces the annotation of exactly that version.
unfoldable pub patch : ℕ → Text → Server → Server × Answer
patch version value none = (none, rejected)
patch version value (some o) = elim (o.version == version) [
  | true ↦ (some (record { version = o.version + 1; annotation = value }), accepted)
  | false ↦ (some o, conflict)
]

-- What happens around one attempt: the writes of others before the patch and before the read, and whether
-- the patch or the read fails otherwise.
pub record Around : Type 0 where
  pub before_patch : Server → Server
  pub patch_fails : Bool
  pub before_get : Server → Server
  pub get_fails : Bool

-- write.
unfoldable pub write : Around → ℕ → Text → Server → Server × Answer
unfolding patch
write a version value s = elim a.patch_fails [
  | true ↦ (a.before_patch s, rejected)
  | false ↦ patch version value (a.before_patch s)
]

pub data Got : Type 0 where
  got : Live → Got
  gone : Got
  unread : Got

abbrev pub got_of : Server → Got
got_of none = gone
got_of (some o) = got o

-- get.
unfoldable pub get : Around → Server → Got
get a s = elim a.get_fails [ true ↦ unread | false ↦ got_of (a.before_get s) ]

-- How a sync ends. The last three return an error, and the key is queued again.
pub data End : Type 0 where
  unchanged : End
  saved : End
  deleted : End
  refused : End
  unreadable : End
  kept_changing : End

module _ (recalled : Text → Text) where
  -- What follows a patch: `again` goes on with the next attempt, from the copy that was read.
  abbrev pub answered : Around → (Live → Server → Server × End) → Server × Answer → Server × End
  answered a again (s, accepted) = (s, saved)
  answered a again (s, rejected) = (s, refused)
  answered a again (s, conflict) = elim (get a s) [
    | gone ↦ (a.before_get s, deleted)
    | unread ↦ (a.before_get s, unreadable)
    | got o ↦ again o (a.before_get s)
  ]

  -- The loop over the attempts; `recalled` is Recall of the holder's pods.
  unfoldable pub attempts : ℕ → (ℕ → Around) → Live → Server → Server × End
  unfolding write get
  attempts zero around current s = (s, kept_changing)
  attempts (suc n) around current s =
      let want = recalled current.annotation in
      elim (text_eq want current.annotation) [
        | true ↦ (s, unchanged)
        | false ↦ answered (around n) (attempts n around) (write (around n) current.version want s)
      ]

abbrev pub most_attempts : ℕ
most_attempts = 5

abbrev pub sync_pods : (ℕ → Around) → Holder → Live → Server → Option Running → Server × End
sync_pods around h cached s none = (s, unreadable)
sync_pods around h cached s (some pods) =
    attempts (λ previous. recall h.kind previous pods) most_attempts around cached s

abbrev pub sync_holder :
    (Holder → Got)
    → (Holder → Option Running)
    → (ℕ → Around)
    → Server
    → Option Holder
    → Server × End
sync_holder cache pods around s none = (s, unchanged)
sync_holder cache pods around s (some h) = elim (cache h) [
  | gone ↦ (s, deleted)
  | unread ↦ (s, unreadable)
  | got cached ↦ sync_pods around h cached s (pods h)
]

abbrev pub pods_of : ReplicaSets → Option (List Placed) → Holder → Option Running
pods_of rss none h = none
pods_of rss (some pods) h = some (running_pods rss h pods)

-- sync: `cache` is the informers' copy of a holder, and `pods` theirs of the pods, `none` for an error.
unfoldable pub sync :
    ReplicaSets
    → (Holder → Got)
    → (Holder → Option (List Placed))
    → (ℕ → Around)
    → Text
    → Server
    → Server × End
unfolding parse_holder attempts recall running_pods
sync rss cache pods around key s =
    sync_holder cache (λ h. pods_of rss (pods h) h) around s (parse_holder key)
