-- ===== src/XInactivation/Wrapper/Exits.antt =====
-- x-inactivation/main.go: which exits count as crashes, and which components can make a node switch.
use kyvernetria.XInactivation.Disk.{Allele, xp, Disk, found, read, failed, ReadError, not_exist}
use kyvernetria.XInactivation.Cell.{Os}
use kyvernetria.XInactivation.Crash.{record_crash}
use kyvernetria.XInactivation.Start.{StartOs, unread}
use kyvernetria.XInactivation.Start.Once.{expressed-found, expressed-unread}
use kyvernetria.XInactivation.Wrapper.{
  Wrapper, Env, mosaic, exited, choose, expresses, declines, no_state,
}
use kyvernetria.Prelude.{ℕ, ◌<◌, ◌≡◌, ◌≢◌, ◌↔◌, false, some, [], String, arith, str_eq_iff, Bool}

-- An exit is a crash that is recorded exactly when its code is not 0, nobody asked for the stop, it
-- came before the minimum uptime, the component is kube-apiserver, and its allele is not pinned.
pub exited-recorded_iff :
    (w : Wrapper) (os : Os) (allele : Allele) (code ran : ℕ) (stopping : Bool) (now : ℕ) (d : Disk)
    → (exited w os allele code ran stopping now d
        ≡ some (record_crash w.cell os w.component allele now d))
      ↔ ((code ≢ 0)
          × (stopping ≡ false)
          × (ran < w.min_uptime)
          × (w.component ≡ mosaic)
          × (w.pinned ≡ false))
unfolding exited
exited-recorded_iff w os allele code ran stopping now d = (
  λ h. ground (arith, str_eq_iff w.component mosaic),
  λ h. ground (arith, str_eq_iff w.component mosaic),
)

module _ (env : Env) (unpinned : env "KYVERNETRIA_ALLELE" ≡ []) (os : StartOs)
    (mid late : Disk → Disk) (d : Disk) where
  -- Without a pin, every component but kube-apiserver expresses Xp and never touches the node's
  -- choice, whatever that is.
  pub choose-other :
      (component : String)
      → component ≢ mosaic
      → choose env component os mid late d ≡ (d, some (expresses xp false))
  unfolding choose
  choose-other component h = rw unpinned (ground (arith, str_eq_iff component mosaic))

  -- Without a pin, kube-apiserver expresses the node's choice where there is one.
  pub choose-mosaic :
      (a : Allele)
      → read d ≡ found a
      → choose env mosaic os mid late d ≡ (d, some (expresses a false))
  unfolding choose
  choose-mosaic a h =
      rw (unpinned, expressed-found os mid late d a h) (ground (arith, str_eq_iff mosaic mosaic))

  -- Without a pin, kube-apiserver refuses to start on a choice that is there and cannot be used.
  pub choose-unread :
      (e : ReadError)
      → read d ≡ failed e
      → e ≢ not_exist
      → choose env mosaic os mid late d ≡ (d, some (declines (no_state (unread e))))
  unfolding choose
  choose-unread e h n =
      rw (unpinned, expressed-unread os mid late d e h n) (ground (arith, str_eq_iff mosaic mosaic))
