-- ===== src/Gestation/Screening/Room.antt =====
-- kubernetes/overlay/pkg/kyvernetria/gestation/screening.go: the checks of the room that the pods need, of
-- storage and of quotas. A quantity is a whole number of its smallest unit.
use kyvernetria.Text.{Text, codes, text_eq, text_ltb}
use kyvernetria.Text.Split.{has_prefix}
use kyvernetria.Prelude.Int.{ℤ, pos, negsuc, ltb_ℤ, leb_ℤ, ◌+ℤ◌, ◌-ℤ◌, wrap32}
use kyvernetria.Prelude.Sort.{sort_by}
use kyvernetria.Gestation.Screening.{
  Finding, finding, fail, warn, info, clear, reservation, volumes, quota, Template, Container,
  Volume, Claim,
}
use kyvernetria.Prelude.{
  ℕ, zero, suc, Bool, true, false, List, [], ◌∷◌, ◌++◌, Option, none, some, keep, map, length, drop,
  if◌then◌else◌,
}

abbrev pub cpu : Text
cpu = codes "cpu"

abbrev pub memory : Text
memory = codes "memory"

abbrev pub ResourceList : Type 0
ResourceList = List (Text × ℤ)

unfoldable pub quantity_of : Text → ResourceList → Option ℤ
quantity_of r [] = none
quantity_of r ((s, q) ∷ rest) = elim (text_eq s r) [ true ↦ some q | false ↦ quantity_of r rest ]

abbrev pub or_zero : Option ℤ → ℤ
or_zero none = pos 0
or_zero (some q) = q

unfoldable pub add_quantity : Text → ℤ → ResourceList → ResourceList
unfolding ◌+ℤ◌
add_quantity r q [] = (r, q) ∷ []
add_quantity r q ((s, t) ∷ rest) = elim (text_eq s r) [
  | true ↦ (s, t +ℤ q) ∷ rest
  | false ↦ (s, t) ∷ add_quantity r q rest
]

unfoldable pub add_all : ResourceList → ResourceList → ResourceList
unfolding add_quantity
add_all [] sum = sum
add_all ((r, q) ∷ rs) sum = add_all rs (add_quantity r q sum)

unfoldable pub sum_requests : List Container → ResourceList → ResourceList
unfolding add_all
sum_requests [] sum = sum
sum_requests (c ∷ cs) sum = sum_requests cs (add_all c.requests sum)

-- podRequests.
unfoldable pub pod_requests : Template → ResourceList
unfolding sum_requests
pod_requests t = sum_requests t.containers []

abbrev pub exceeds : ResourceList → ResourceList → Text → Bool
exceeds pod size r = ltb_ℤ (or_zero (quantity_of r size)) (or_zero (quantity_of r pod))

abbrev pub judged_room : List Text → List Finding
judged_room [] = finding reservation clear [] ∷ []
judged_room (r ∷ rs) = finding reservation warn (r ∷ rs) ∷ []

-- screenReservation.
unfoldable pub screen_reservation : Template → ResourceList → List Finding
unfolding pod_requests quantity_of
screen_reservation t size = judged_room (keep (exceeds (pod_requests t) size) (cpu ∷ memory ∷ []))

-- What a lookup answers: an object, none, or an error.
pub data Lookup {ℓ} (A : Type ℓ) : Type ℓ where
  held : A → Lookup A
  absent : Lookup A
  unread : Lookup A

-- 64Ti.
abbrev pub plausible_size : ℤ
plausible_size = pos 70368744177664

abbrev pub class_finding : Text → Text → Lookup Text → List Finding
class_finding what name unread = finding volumes info (what ∷ []) ∷ []
class_finding what name absent = finding volumes fail (what ∷ name ∷ []) ∷ []
class_finding what name (held class) = finding volumes clear (what ∷ class ∷ []) ∷ []

abbrev pub class_of : Text → (Text → Lookup Text) → Option Text → List Finding
class_of what classes none = class_finding what [] (classes [])
class_of what classes (some name) = elim (text_eq name []) [
  | true ↦ finding volumes info (what ∷ []) ∷ []
  | false ↦ class_finding what name (classes name)
]

abbrev pub sized : Text → (Text → Lookup Text) → Option Text → Option ℤ → List Finding
sized what classes class none = finding volumes fail (what ∷ []) ∷ []
sized what classes class (some size) = elim (leb_ℤ size (pos 0)) [
  | true ↦ finding volumes fail (what ∷ []) ∷ []
  | false ↦ elim (ltb_ℤ plausible_size size) [
    | true ↦ finding volumes warn (what ∷ []) ∷ []
    | false ↦ class_of what classes class
  ]
]

-- bindable; `classes` looks a storage class up, the default one for the empty name.
unfoldable pub bindable : Text → (Text → Lookup Text) → Claim → List Finding
bindable what classes c = sized what classes c.class c.size

-- A claim: whether it is bound, and what it asks for.
abbrev pub Claims : Type 0
Claims = Text → Lookup (Bool × Claim)

abbrev pub claimed : (Text → Lookup Text) → Text → Lookup (Bool × Claim) → List Finding
claimed classes name unread = finding volumes info (name ∷ []) ∷ []
claimed classes name absent = finding volumes fail (name ∷ []) ∷ []
claimed classes name (held (true, c)) = finding volumes clear (name ∷ []) ∷ []
claimed classes name (held (false, c)) = bindable name classes c

abbrev pub ephemeral_findings : (Text → Lookup Text) → Text → Option Claim → List Finding
ephemeral_findings classes name none = []
ephemeral_findings classes name (some c) = bindable name classes c

abbrev pub volume_findings :
    Claims → (Text → Lookup Text) → Text → Option Claim → Option Text → List Finding
volume_findings claims classes name e (some claim) = claimed classes claim (claims claim)
volume_findings claims classes name e none = ephemeral_findings classes name e

unfoldable pub each_volume : Claims → (Text → Lookup Text) → List Volume → List Finding
unfolding bindable
each_volume claims classes [] = []
each_volume claims classes (v ∷ vs) =
    volume_findings claims classes v.name v.ephemeral v.claim_name ++ each_volume claims classes vs

abbrev pub or_no_storage : List Finding → List Finding
or_no_storage [] = finding volumes clear [] ∷ []
or_no_storage (f ∷ fs) = f ∷ fs

-- screenVolumes.
unfoldable pub screen_volumes : Claims → (Text → Lookup Text) → Template → List Finding
unfolding each_volume
screen_volumes claims classes t = or_no_storage (each_volume claims classes t.volumes)

pub record Quota : Type 0 where
  pub name : Text
  pub status_hard : ResourceList
  pub spec_hard : ResourceList
  pub used : ResourceList

-- The loop that adds a pod's share, once for each pod.
unfoldable pub repeated : ℕ → ℤ → ℤ
unfolding ◌+ℤ◌
repeated zero q = pos 0
repeated (suc n) q = repeated n q +ℤ q

abbrev pub loop_count : ℤ → ℕ
loop_count (pos n) = n
loop_count (negsuc n) = 0

abbrev pub requests_prefix : Text
requests_prefix = codes "requests."

-- What the launch needs: the pods, and their CPU and memory under both of the names that quotas use.
unfoldable pub needed : ℤ → ResourceList → ResourceList
unfolding repeated quantity_of
needed pods size =
    let share = λ (r : Text). repeated (loop_count pods) (or_zero (quantity_of r size)) in
    (codes "pods", pods)
    ∷ (cpu, share cpu)
    ∷ (requests_prefix ++ cpu, share cpu)
    ∷ (memory, share memory)
    ∷ (requests_prefix ++ memory, share memory)
    ∷ []

abbrev pub first_some : Option ℤ → Option ℤ → Option ℤ
first_some (some q) o = some q
first_some none o = o

abbrev pub unprefixed : Text → Text
unprefixed name =
    if has_prefix name requests_prefix then drop (length requests_prefix) name else name

-- What a quota has left, with the room of the placenta given back.
unfoldable pub available : Quota → ResourceList → Text → ℤ → ℤ
unfolding quantity_of ◌+ℤ◌ ◌-ℤ◌ has_prefix
available q placenta name hard =
    (hard -ℤ or_zero (quantity_of name q.used)) +ℤ or_zero (quantity_of (unprefixed name) placenta)

abbrev pub too_little : Quota → ResourceList → Text → ℤ → Option ℤ → Bool
too_little q placenta name want none = false
too_little q placenta name want (some hard) = ltb_ℤ (available q placenta name hard) want

unfoldable pub is_short : Quota → ResourceList → Text × ℤ → Bool
unfolding available quantity_of
is_short q placenta (name, want) =
    too_little q placenta name want
      (first_some (quantity_of name q.status_hard) (quantity_of name q.spec_hard))

unfoldable pub shortages : ResourceList → ResourceList → List Quota → List Text
unfolding is_short
shortages placenta need [] = []
shortages placenta need (q ∷ qs) =
    map (λ (n : Text × ℤ). q.name ++ 32 ∷ n.0) (keep (is_short q placenta) need)
    ++ shortages placenta need qs

abbrev pub judged_quota : List Text → List Finding
judged_quota [] = finding quota clear [] ∷ []
judged_quota (s ∷ ss) = finding quota fail (s ∷ ss) ∷ []

-- screenQuota; the quotas are `none` for an error.
unfoldable pub screen_quota : ℤ → ResourceList → ResourceList → Option (List Quota) → List Finding
unfolding needed shortages sort_by text_ltb ◌+ℤ◌
screen_quota replicas size placenta none = finding quota info [] ∷ []
screen_quota replicas size placenta (some quotas) =
    judged_quota
      (sort_by text_ltb (shortages placenta (needed (wrap32 (replicas +ℤ pos 1)) size) quotas))
