-- ===== src/XInactivation/Wrapper/Supervise.antt =====
-- x-inactivation/main.go: supervise. The loop's channels are a list of events up to the exit.
use kyvernetria.XInactivation.Disk.{Allele, allele_eq, Disk, Reading, found, failed}
use kyvernetria.XInactivation.Cell.{Os, Outcome}
use kyvernetria.XInactivation.Wrapper.{Wrapper, mosaic, exited}
use kyvernetria.Prelude.{
  ℕ, suc, ◌≤◌, ◌≡◌, ◌⊎◌, refl, Bool, true, false, not, ◌||◌, List, [], ◌∷◌, ◌++◌, Option, none,
  arith, str_eq, if◌then◌else◌,
}

-- What wakes the loop: a signal to the wrapper, the kill timer, or a tick with the node's allele as
-- it reads at that moment.
pub data Event : Type 0 where
  signal : ℕ → Event
  kill_due : Event
  tick : Reading → Event

-- What is sent to the component.
pub data Sent : Type 0 where
  forwarded : ℕ → Sent
  follow_term : Sent
  kill : Sent

pub record Watch : Type 0 where
  pub stopping : Bool
  pub kill_armed : Bool
  pub sent : List Sent

abbrev pub watching : Watch
watching = record { stopping = false; kill_armed = false; sent = [] }

abbrev pub follow : Allele → Reading → Watch → Watch
follow allele (failed e) s = s
follow allele (found now) s =
    if allele_eq now allele
    then s
    else record { stopping = true; kill_armed = true; sent = follow_term ∷ s.sent }

-- One turn of the loop. The newest signal stands first; the kill timer fires once.
unfoldable pub wake : Wrapper → Allele → Event → Watch → Watch
wake w allele (signal n) s = record s { stopping = true; sent = forwarded n ∷ s.sent }
wake w allele kill_due s =
    if s.kill_armed then record s { kill_armed = false; sent = kill ∷ s.sent } else s
wake w allele (tick r) s =
    if not (str_eq w.component mosaic) || w.pinned || s.stopping then s else follow allele r s

unfoldable pub watch : Wrapper → Allele → List Event → Watch → Watch
unfolding wake
watch w allele [] s = s
watch w allele (e ∷ es) s = watch w allele es (wake w allele e s)

-- The exit code that supervise returns, and the crash that it records, if any. A component that
-- cannot be started counts as one that ran for no time and exited with 1.
unfoldable pub supervise :
    Wrapper → Os → Allele → Bool → List Event → ℕ → ℕ → ℕ → Disk → ℕ × Option Outcome
unfolding exited watch
supervise w os allele started events code ran now d =
    if started
    then (code, exited w os allele code ran (watch w allele events watching).stopping now d)
    else (1, exited w os allele 1 0 false now d)

-- The events that ask the component to stop.
abbrev pub Stops : Wrapper → Allele → Event → Type 0
Stops w allele (signal n) = Unit {0}
Stops w allele kill_due = ⊥
Stops w allele (tick (failed e)) = ⊥
Stops w allele (tick (found b)) =
    (allele_eq b allele ≡ false) × (str_eq w.component mosaic ≡ true) × (w.pinned ≡ false)

wake-Stops :
    (w : Wrapper) (allele : Allele) (e : Event) (s : Watch)
    → Stops w allele e
    → (wake w allele e s).stopping ≡ true
unfolding wake
wake-Stops w allele (signal n) s h = refl
wake-Stops w allele kill_due s h = absurd h
wake-Stops w allele (tick (failed e)) s h = absurd h
wake-Stops w allele (tick (found b)) s h = ground arith

wake-stopping :
    (w : Wrapper) (allele : Allele) (e : Event) (s : Watch)
    → s.stopping ≡ true
    → (wake w allele e s).stopping ≡ true
unfolding wake
wake-stopping w allele e s h = ground arith

watch-stopping :
    (w : Wrapper) (allele : Allele) (es : List Event) (s : Watch)
    → s.stopping ≡ true
    → (watch w allele es s).stopping ≡ true
unfolding watch
watch-stopping w allele [] s h = h
watch-stopping w allele (e ∷ es) s h =
    watch-stopping w allele es (wake w allele e s) (wake-stopping w allele e s h)

watch-Stops :
    (w : Wrapper) (allele : Allele) (before : List Event) (e : Event) (after : List Event)
    (s : Watch)
    → Stops w allele e
    → (watch w allele (before ++ e ∷ after) s).stopping ≡ true
unfolding watch
watch-Stops w allele [] e after s h =
    watch-stopping w allele after (wake w allele e s) (wake-Stops w allele e s h)
watch-Stops w allele (x ∷ before) e after s h =
    watch-Stops w allele before e after (wake w allele x s) h

-- Once a signal came, or an unpinned kube-apiserver saw that the node expresses the other allele, the
-- exit that follows is no crash, whatever its code and however soon: nothing is recorded.
pub supervise-stopped :
    (w : Wrapper) (os : Os) (allele : Allele) (before : List Event) (e : Event) (after : List Event)
    (code ran now : ℕ) (d : Disk)
    → Stops w allele e
    → supervise w os allele true (before ++ e ∷ after) code ran now d ≡ (code, none)
unfolding supervise
supervise-stopped w os allele before e after code ran now d h =
    rw (watch-Stops w allele before e after watching h) (ground arith)

abbrev pub follow_count : List Sent → ℕ
follow_count [] = 0
follow_count (forwarded n ∷ xs) = follow_count xs
follow_count (follow_term ∷ xs) = suc (follow_count xs)
follow_count (kill ∷ xs) = follow_count xs

-- Either no SIGTERM has been sent for a switch, or the component is already stopping.
abbrev Calm : Watch → Type 0
Calm s = (follow_count s.sent ≤ 1) × ((follow_count s.sent ≡ 0) ⊎ (s.stopping ≡ true))

wake-Calm :
    (w : Wrapper) (allele : Allele) (e : Event) (s : Watch) → Calm s → Calm (wake w allele e s)
unfolding wake
wake-Calm w allele (signal n) s h = ground arith
wake-Calm w allele kill_due s h = ground arith
wake-Calm w allele (tick (failed e)) s h = ground arith
wake-Calm w allele (tick (found b)) s h = ground arith

watch-Calm :
    (w : Wrapper) (allele : Allele) (es : List Event) (s : Watch)
    → Calm s
    → Calm (watch w allele es s)
unfolding watch
watch-Calm w allele [] s h = h
watch-Calm w allele (e ∷ es) s h =
    watch-Calm w allele es (wake w allele e s) (wake-Calm w allele e s h)

-- Over a whole run the wrapper sends one SIGTERM at most on its own account.
pub follow_count-watch :
    (w : Wrapper) (allele : Allele) (es : List Event)
    → follow_count (watch w allele es watching).sent ≤ 1
follow_count-watch w allele es = (watch-Calm w allele es watching (ground arith)).0
